-- ===== src/Drivers.antt =====
-- drivers/: the light sensor, the one driver of the repository.
pub mod Tsl2561
