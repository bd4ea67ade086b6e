-- ===== src/Device/Errors.antt =====
-- The errors of go/src/inter/errors_inter.go that the devices' parts return, and the database's own.
pub data DeviceError : Type 0 where
  device_not_found : DeviceError
  device_already_exists : DeviceError
  token_not_found : DeviceError
  database : DeviceError
  invalid_token : DeviceError
  device_pending : DeviceError
  device_refused : DeviceError
  device_unknown : DeviceError
  uuid_empty : DeviceError
  never_online : DeviceError
