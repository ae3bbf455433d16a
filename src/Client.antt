-- ===== src/Client.antt =====
-- client: the status of a connection, and how it is opened, closed and tried again.
pub mod Retrier
pub mod Connection
pub mod Retries
pub mod Session
pub mod KeepAlive
pub mod Options
