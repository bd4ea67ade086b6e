-- ===== src/Downlink.antt =====
-- Package go/src/device_manager: downlink commands, from their record in the database to the queue
-- of the device.
pub mod Queue
pub mod Errors
pub mod Commands
pub mod Service
pub mod Runs
