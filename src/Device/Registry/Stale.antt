-- ===== src/Device/Registry/Stale.antt =====
-- What the cache still answers where LoadConfig fails and the statement behind it does not.
use goster_io_t.Common.Text.{Text}
use goster_io_t.Device.Registry.{Registry}
