-- ===== src/Realtime.antt =====
-- The placement of vehicles in libs/routers_realtime.
pub mod Partition
pub mod Fleet
pub mod Owners
