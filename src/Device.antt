-- ===== src/Device.antt =====
-- go/src/device_manager: the registry of the devices, whether they are online, and the door that
-- two of their signals control; go/src/storage/device: the table behind the registry.
pub mod Access
pub mod Errors
pub mod Table
pub mod Registry
pub mod Presence
pub mod Runs
