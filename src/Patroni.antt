-- ===== src/Patroni.antt =====
-- What the operator does with Patroni.
pub mod Switchover
pub mod Once
pub mod Api
pub mod Restarts
pub mod Restarting
pub mod Config
pub mod Lookups
pub mod Mandatory
