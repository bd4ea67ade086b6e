-- ===== src/Ingress/Runs.antt =====
-- Runs of the ingress: a device that logs in and asks for its token, a command that goes back to its
-- queue.
use goster_io_t.Common.{ℕ, ◌≡◌, refl, arith, true, none, some, [], ◌∷◌}
use goster_io_t.Common.Result.{Result, ok, err}
use goster_io_t.Common.Int.{pos}
use goster_io_t.Common.Text.{
  Text, text, str_eq, trim_space, strip, space_front, space_back, equal_fold, to_lower,
}
use goster_io_t.Common.Assoc.{lookup}
use goster_io_t.Device.Table.{
  DeviceRow, DeviceMetadata, get_device_by_token, load_config, to_metadata, authenticated,
}
use goster_io_t.Device.Registry.{Registry, authenticate}
use goster_io_t.Device.Registry.Laws.{MayLogIn}
use goster_io_t.Device.Registry.Writes.{IsSound}
use goster_io_t.Downlink.Errors.{CommandError, command_not_found}
use goster_io_t.Downlink.Queue.{CommandQueue, Message, queue_of}
use goster_io_t.Downlink.Queue.Bounds.{behind, IsBounded}
use goster_io_t.Downlink.Commands
use goster_io_t.Downlink.Commands.{CommandRow, CommandTable}
use goster_io_t.Downlink.Commands.Laws.{find_row, moved}
use goster_io_t.Downlink.Service.Memory.{memory_queue, table_repository}
use goster_io_t.Ingress.Messages.{
  TypedValue, typed_value, UpdateRequest, status_requeued, raw_payload_bytes,
}
use goster_io_t.Ingress.Commands.{invalid_argument, update_command_status, requeue_message}
use goster_io_t.Ingress.Commands.Laws.{
  update_command_status-refused, update_command_status_requeued,
}
use goster_io_t.Common.{Bool, List, suc, false}
use goster_io_t.Ingress.Events.{Event, EventResult, event_type_raw, Telemetry, ingest_events}
use goster_io_t.Ingress.Events.Laws.{StopsAtFailure, ingest_events-StopsAtFailure}
use goster_io_t.Ingress.Devices.{
  AuthenticateResponse, accepted, authenticate_device, register, registration_accepted,
  RegisterResponse, existing_answer,
}
use goster_io_t.Ingress.Devices.Laws.{presented, authenticate_device-MayLogIn, register_credential}

abbrev lamp : Text
lamp = 108 ∷ 49 ∷ []

abbrev token : Text
token = 103 ∷ 116 ∷ 95 ∷ 49 ∷ []

abbrev meta : DeviceMetadata
meta = record {
  name = lamp;
  hw_version = [];
  sw_version = [];
  config_version = [];
  serial_number = 83 ∷ [];
  mac_address = lamp;
  token = token;
  authenticate_status = 0;
}

abbrev row : DeviceRow
row = record { tenant_id = 116 ∷ []; meta = meta; token = some token }

abbrev registry : Registry
registry = record { table = record { devices = (lamp, row) ∷ []; up = true }; token_cache = [] }

registry-IsSound : IsSound registry
unfolding lookup
registry-IsSound = record { keys = (refl, tt); cache = record { sound = λ t u h. absurd (cc) } }

abbrev credential : TypedValue
credential = record { kind = text "token"; value = token }

abbrev answer : AuthenticateResponse
answer = record { status = accepted; uuid = lamp }

answered : (authenticate_device registry (credential ∷ []) []).1 ≡ ok answer
unfolding authenticate_device typed_value equal_fold to_lower text trim_space strip space_front
    space_back str_eq authenticate lookup load_config get_device_by_token
answered = refl

authenticate_device-MayLogIn_example : MayLogIn registry.table (presented (credential ∷ []) []) lamp
authenticate_device-MayLogIn_example =
    authenticate_device-MayLogIn registry (credential ∷ []) [] answer registry-IsSound answered refl

abbrev registered : RegisterResponse
registered = record { status = registration_accepted; uuid = lamp; credential = some token }

asked : (register (λ d. d.mac_address) registry meta).1 ≡ ok registered
unfolding register trim_space strip space_front space_back lookup str_eq load_config to_metadata
    existing_answer
asked = refl

register_credential_example :
    (r : DeviceRow) × (lookup lamp registry.table.devices ≡ some r)
    × (r.meta.authenticate_status ≡ authenticated)
    × ((to_metadata r).token ≡ token)
register_credential_example =
    register_credential (λ d. d.mac_address) registry meta registered token asked refl

abbrev waiting : CommandQueue
waiting = record { queues = []; capacity = pos 2 }

waiting-IsBounded : IsBounded waiting
unfolding queue_of lookup
waiting-IsBounded = record { fits = λ uuid p. omega arith }

abbrev command : CommandRow
command = record {
  id = 7;
  tenant_id = 116 ∷ [];
  uuid = lamp;
  cmd_id = 0x0203;
  command = 111 ∷ 110 ∷ [];
  payload = some (1 ∷ []);
  status = Commands.status_sent;
  error_text = none;
  executed_at = none;
}

abbrev table : CommandTable
table = record { rows = command ∷ []; next_id = 8; up = true }

found : find_row 7 table.rows ≡ some command
unfolding find_row
found = refl

abbrev no_tenant : Text → Result CommandError Text
no_tenant uuid = err command_not_found

abbrev request : ℕ → UpdateRequest
request code = record {
  command_id = pos 7;
  status = status_requeued;
  error_text = [];
  uuid = lamp;
  command_uuid = [];
  target_identity = [];
  protocol_command_code = code;
  command_code = 0;
  raw = some (record { body = 1 ∷ []; raw_text = []; json = none });
  command_payload = none;
}

abbrev back : Message
back = record { command_id = pos 7; cmd_id = 0x0203; payload = 1 ∷ [] }

checked : requeue_message (request 0x0203) ≡ ok (lamp, back)
unfolding requeue_message trim_space strip space_front space_back raw_payload_bytes
checked = refl

update_command_status_requeued_example :
    (let u =
        update_command_status
          (table_repository no_tenant 500)
          memory_queue
          (table, waiting)
          (request 0x0203) in
      (u.1 ≡ ok tt)
      × (queue_of u.0.1 lamp ≡ back ∷ behind (pos 2) (queue_of waiting lamp))
      × (find_row 7 u.0.0.rows ≡ some (moved Commands.status_queued (text "") 500 command)))
update_command_status_requeued_example =
    update_command_status_requeued no_tenant 500 table waiting (request 0x0203) lamp back 6 command
      refl checked refl refl waiting-IsBounded found

abbrev nameless : UpdateRequest
nameless = record (request 0) { command_id = pos 0 }

refused :
    (update_command_status
      (table_repository no_tenant 500)
      memory_queue
      (table, waiting)
      nameless).1
    ≡ err invalid_argument
unfolding update_command_status
refused = refl

update_command_status-refused_example :
    (update_command_status
      (table_repository no_tenant 500)
      memory_queue
      (table, waiting)
      nameless).0
    ≡ (table, waiting)
update_command_status-refused_example =
    update_command_status-refused (table_repository no_tenant 500) memory_queue (table, waiting)
      nameless refused

abbrev no_telemetry : Telemetry ℕ
no_telemetry = record {
  ingest_metrics = λ n uuid points. (suc n, ok tt);
  ingest_log = λ n uuid log. (suc n, ok tt);
  ingest_device_error = λ n uuid payload. (suc n, ok tt);
  ingest_event = λ n uuid payload. (suc n, ok tt);
}

abbrev hello : Event
hello = record {
  event_id = 101 ∷ [];
  device_uuid = lamp;
  primary_identity = [];
  identities = [];
  metrics = [];
  logs = lamp ∷ [];
  command_receipt = none;
  event_type = event_type_raw;
  raw = some (record { body = 1 ∷ []; raw_text = []; json = none });
}

abbrev ingested : Bool → List EventResult
ingested allow_partial =
    (ingest_events (table_repository no_tenant 500) memory_queue no_telemetry allow_partial
      (0, (table, waiting)) (some hello ∷ none ∷ some hello ∷ [])).1

ingest_events-StopsAtFailure_example : StopsAtFailure (ingested false)
ingest_events-StopsAtFailure_example =
    ingest_events-StopsAtFailure (table_repository no_tenant 500) memory_queue no_telemetry
      (0, (table, waiting)) (some hello ∷ none ∷ some hello ∷ [])
