-- ===== src/Network.antt =====
-- The connections of internal/network/conn.go.
pub mod Conn
pub mod Requests
pub mod Fair
pub mod Overlaps
