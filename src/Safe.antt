-- ===== src/Safe.antt =====
-- internal/safe: the maps that the broker's goroutines share. Safe/RMap and
-- Safe/KeyMap have each call without a break; Safe/Steps has the two atomic steps of the calls that change an
-- `RMap`, with the steps of other calls in between.
pub mod RMap
pub mod KeyMap
pub mod Counting
pub mod Steps
pub mod Lookups
pub mod Laws
