-- ===== src/Device/Runs.antt =====
-- Runs of the registry, of the presence of a device and of the door.
use goster_io_t.Common.{
  ◌-◌, ◌≡◌, ◌≢◌, refl, arith, true, false, Option, none, some, [], ◌∷◌, inl, inr, Bool-cases,
}
use goster_io_t.Common.{sym, ◌∙◌, if-true, if-false, some-injective}
use goster_io_t.Common.{is_empty, if◌then◌else◌}
use goster_io_t.Common.Result.{ok}
use goster_io_t.Common.Int.{pos, int_leb}
use goster_io_t.Common.Text.{
  Text, text, str_eq, str_eq_iff, trim_space, strip, space_front, space_back,
}
use goster_io_t.Common.Assoc.{lookup}
use goster_io_t.Device.Access.{
  MetricPoint, evaluate_access_control, metric_type_access_signal_a, metric_type_access_signal_b,
}
use goster_io_t.Device.Access.Laws.{DoorOf, SignalOf, IsLatest, evaluate_latest}
use goster_io_t.Device.Presence.{Presence, handle_heartbeat, query_device_status, status_after}
use goster_io_t.Device.Presence.Laws.{query_device_status-handle_heartbeat}
use goster_io_t.Device.Table.{
  DeviceRow, DeviceMetadata, authenticated, authenticate_revoked, is_taken, put_row, save_metadata,
  load_config, to_metadata,
}
use goster_io_t.Device.Table.Laws.{KeysDiffer}
use goster_io_t.Downlink.Commands.{non_empty_text}
use goster_io_t.Device.Registry.{
  Registry, authenticate, update_device_authenticate_status, refresh_token, delete_device,
}
use goster_io_t.Device.Registry.Laws.{
  MayLogIn, CacheIsSound, authenticate-MayLogIn, authenticate-CacheIsSound,
}
use goster_io_t.Device.Registry.Writes.{IsSound}
use goster_io_t.Device.Registry.Sound.{
  update_device_authenticate_status-IsSound, refresh_token-IsSound, delete_device-IsSound, revoked,
}

abbrev first : MetricPoint
first = record { timestamp = pos 5; value = 0; metric_type = 8 }

abbrev second : MetricPoint
second = record { timestamp = pos 9; value = 0x3F800000; metric_type = 16 }

abbrev third : MetricPoint
third = record { timestamp = pos 9; value = 0x40000000; metric_type = 8 }

third-IsLatest : IsLatest metric_type_access_signal_a (first ∷ second ∷ third ∷ []) third
unfolding int_leb
third-IsLatest = record {
  before = first ∷ second ∷ [];
  after = [];
  split = refl;
  typed = refl;
  earlier = (λ e. refl, (λ e. absurd (omega arith), tt));
  later = tt;
}

second-IsLatest : IsLatest metric_type_access_signal_b (first ∷ second ∷ third ∷ []) second
second-IsLatest = record {
  before = first ∷ [];
  after = third ∷ [];
  split = refl;
  typed = refl;
  earlier = (λ e. absurd (omega arith), tt);
  later = (λ e. absurd (omega arith), tt);
}

evaluate_latest_example :
    (let s = evaluate_access_control (first ∷ second ∷ third ∷ []) in
      DoorOf s 0x40000000 0x3F800000
      × SignalOf s.signal_a 0x40000000
      × SignalOf s.signal_b 0x3F800000)
evaluate_latest_example = evaluate_latest third-IsLatest second-IsLatest

abbrev lamp : Text
lamp = 108 ∷ 49 ∷ []

abbrev pump : Text
pump = 112 ∷ 49 ∷ []

abbrev online : Presence
online = record { last_seen = (lamp, 10) ∷ []; deadline = 60 }

named : is_empty (trim_space lamp) ≡ false
unfolding trim_space strip space_front space_back
named = refl

query_device_status-handle_heartbeat_example :
    query_device_status (handle_heartbeat online lamp 100) lamp 170 ≡ (
      if str_eq (trim_space lamp) (trim_space lamp)
      then ok (status_after 60 (170 - 100))
      else query_device_status online lamp 170)
query_device_status-handle_heartbeat_example =
    query_device_status-handle_heartbeat online lamp lamp 100 170 named

abbrev token : Text
token = 103 ∷ 116 ∷ 95 ∷ 49 ∷ []

abbrev meta : DeviceMetadata
meta = record {
  name = lamp;
  hw_version = [];
  sw_version = [];
  config_version = [];
  serial_number = 83 ∷ [];
  mac_address = 77 ∷ [];
  token = token;
  authenticate_status = 0;
}

abbrev row : DeviceRow
row = record { tenant_id = 116 ∷ []; meta = meta; token = some token }

abbrev registry : Registry
registry = record {
  table = record { devices = (lamp, row) ∷ []; up = true };
  token_cache = (token, lamp) ∷ [];
}

may_log_in :
    (given_token uuid : Text)
    → lookup given_token registry.token_cache ≡ some uuid
    → MayLogIn registry.table given_token uuid
unfolding lookup str_eq
may_log_in given_token uuid h = elim (Bool-cases (str_eq token given_token)) [
  | inl same ↦
      let own : uuid ≡ lamp = some-injective (sym h ∙ if-true none _ same) in
      let key : given_token ≡ token = sym ((str_eq_iff token given_token).0 same) in
      rw (own, key) (record { given = refl; row = row; found = refl; holds = refl; status = refl })
  | inr other ↦
      let clash : ◌≡◌ {A = Option Text} none (some uuid) = sym (if-false (some lamp) _ other) ∙ h in
      absurd (cc)
]

registry-CacheIsSound : CacheIsSound registry
registry-CacheIsSound = record { sound = may_log_in }

registry-keys : KeysDiffer registry.table.devices
unfolding lookup
registry-keys = (refl, tt)

registry-IsSound : IsSound registry
registry-IsSound = record { keys = registry-keys; cache = registry-CacheIsSound }

given : is_empty token ≡ false
given = refl

logged_in : (authenticate registry token).1 ≡ ok lamp
unfolding authenticate lookup str_eq
logged_in = refl

authenticate-MayLogIn_example : MayLogIn registry.table token lamp
authenticate-MayLogIn_example =
    authenticate-MayLogIn registry registry-keys registry-CacheIsSound token given lamp logged_in

authenticate-CacheIsSound_example : CacheIsSound (authenticate registry token).0
authenticate-CacheIsSound_example =
    authenticate-CacheIsSound registry registry-keys registry-CacheIsSound token given

update_device_authenticate_status-IsSound_example :
    IsSound (update_device_authenticate_status registry lamp authenticated pump).0
update_device_authenticate_status-IsSound_example =
    update_device_authenticate_status-IsSound registry registry-IsSound lamp authenticated pump

refresh_token-IsSound_example : IsSound (refresh_token true registry lamp pump).0
refresh_token-IsSound_example = refresh_token-IsSound registry registry-IsSound lamp pump

delete_device-IsSound_example : IsSound (delete_device true registry lamp).0
delete_device-IsSound_example = delete_device-IsSound registry registry-IsSound lamp

done : (update_device_authenticate_status registry lamp authenticate_revoked pump).1 ≡ ok (text "")
unfolding update_device_authenticate_status load_config lookup str_eq to_metadata save_metadata
    put_row is_taken non_empty_text text trim_space strip space_front space_back
done = refl

revoked_example :
    (authenticate
      (update_device_authenticate_status registry lamp authenticate_revoked pump).0
      token).1
    ≢ ok lamp
revoked_example =
    revoked registry registry-IsSound lamp authenticate_revoked pump (text "") (ground arith) done
      token given
