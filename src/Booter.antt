-- ===== src/Booter.antt =====
-- The command `cable` of cmd/cable: the program that embeds the broker.
pub mod Auth
pub mod Messages
pub mod Config
pub mod Setup
pub mod Api
