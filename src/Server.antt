-- ===== src/Server.antt =====
-- The server of server/server.go.
pub mod Handlers
pub mod Calls
pub mod Table
pub mod Sound
pub mod Closing
pub mod Codes
pub mod Logins
pub mod Arrivals
pub mod Runs
pub mod Shutdown
pub mod Rounds
pub mod Ends
pub mod Transports
pub mod Counts
