-- ===== src/Device/Presence.antt =====
-- device_presence_service.go over device_presence_store_memory.go. Times are nanoseconds; `now` is
-- time.Now().
pub mod Laws
use goster_io_t.Common.{
  ℕ, ◌-◌, ◌*◌, Bool, true, false, ltb, [], Option, none, some, is_empty, if◌then◌else◌, ◌%◌, ◌^◌,
  ◌&&◌,
}
use goster_io_t.Common.Result.{Result, ok, err}
use goster_io_t.Common.Int.{ℤ, is_positive, pos_part}
use goster_io_t.Common.Text.{Text, trim_space}
use goster_io_t.Common.Assoc.{Assoc, lookup, insert, delete}
use goster_io_t.Device.Errors.{DeviceError, uuid_empty, never_online}

pub data DeviceStatus : Type 0 where
  status_offline : DeviceStatus
  status_online : DeviceStatus
  status_delayed : DeviceStatus

-- DevicePresenceService: the store's map and the deadline.
pub record Presence : Type 0 where
  pub last_seen : Assoc ℕ
  pub deadline : ℕ

unfoldable pub new_device_presence_with_store : ℤ → Presence
new_device_presence_with_store deadline = record {
  last_seen = [];
  deadline = if is_positive deadline then pos_part deadline else 60000000000;
}

unfoldable pub set_deadline : Presence → ℤ → Presence
set_deadline s deadline =
    if is_positive deadline then record s { deadline = pos_part deadline } else s

unfoldable pub save_last_seen : Assoc ℕ → Text → ℕ → Assoc ℕ
save_last_seen m uuid at = let key = trim_space uuid in if is_empty key then m else insert key at m

unfoldable pub load_last_seen : Assoc ℕ → Text → Option ℕ
load_last_seen m uuid = let key = trim_space uuid in if is_empty key then none else lookup key m

unfoldable pub delete_last_seen : Assoc ℕ → Text → Assoc ℕ
delete_last_seen m uuid = let key = trim_space uuid in if is_empty key then m else delete key m

unfoldable pub remove_device : Presence → Text → Presence
remove_device s uuid = record s { last_seen = delete_last_seen s.last_seen uuid }

unfoldable pub handle_heartbeat : Presence → Text → ℕ → Presence
handle_heartbeat s uuid now =
    let key = trim_space uuid in
    if is_empty key then s else record s { last_seen = save_last_seen s.last_seen key now }

-- The status that a time since the last heartbeat stands for. A time.Duration is an int64, and the
-- double of a deadline past its range is negative or wraps.
unfoldable pub status_after : ℕ → ℕ → DeviceStatus
status_after deadline delta =
    let double = 2 * deadline % 2 ^ 64 in
    if ltb delta deadline
    then status_online
    else if ltb double (2 ^ 63) && ltb delta double
    then status_delayed
    else status_offline

-- The status that goes with an error is StatusOffline.
unfoldable pub query_device_status : Presence → Text → ℕ → Result DeviceError DeviceStatus
query_device_status s uuid now =
    let key = trim_space uuid in
    if is_empty key then err uuid_empty else elim (load_last_seen s.last_seen key) [
      | none ↦ err never_online
      | some at ↦ ok (status_after s.deadline (now - at))
    ]
