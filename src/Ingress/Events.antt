-- ===== src/Ingress/Events.antt =====
-- IngestEvents, ingestOne and ReportHeartbeat of web/ingress/service.go. Times of telemetry are
-- converted before an event is an `Event`; the tenant in an answer is left out.
pub mod Laws
use goster_io_t.Common.{
  ℕ, Bool, true, false, ◌||◌, Option, none, some, List, [], ◌∷◌, is_empty, if◌then◌else◌,
}
use goster_io_t.Common.Result.{Result, ok, err}
use goster_io_t.Common.Word.{Bytes}
use goster_io_t.Common.Text.{Text, text, trim_space}
use goster_io_t.Downlink.Service.{CommandRepository, DeviceCommandQueue}
use goster_io_t.Device.Access.{MetricPoint}
use goster_io_t.Device.Presence.{Presence, handle_heartbeat}
use goster_io_t.Ingress.Messages.{TypedValue, typed_value, Receipt, RawPayload, raw_payload_bytes}
use goster_io_t.Ingress.Commands.{update_command_receipt, IngressError}

pub data EventType : Type 0 where
  event_type_device_error event_type_command_failed event_type_device_event event_type_raw :
      EventType
  event_type_other : ℕ → EventType

-- CanonicalDeviceEvent; `device_uuid` is GetDevice().GetUuid(), a missing metric is nil.
pub record Event : Type 0 where
  pub event_id : Text
  pub device_uuid : Text
  pub primary_identity : Text
  pub identities : List TypedValue
  pub metrics : List (Option MetricPoint)
  pub logs : List Text
  pub command_receipt : Option Receipt
  pub event_type : EventType
  pub raw : Option RawPayload

-- EventIngestResult; the error is its code.
pub record EventResult : Type 0 where
  pub event_id : Text
  pub success : Bool
  pub uuid : Text
  pub error_code : Text

-- inter.TelemetryIngestService
pub record Telemetry (T : Type 0) : Type 0 where
  pub ingest_metrics : T → Text → List MetricPoint → T × Result IngressError (Unit {0})
  pub ingest_log : T → Text → Text → T × Result IngressError (Unit {0})
  pub ingest_device_error : T → Text → Bytes → T × Result IngressError (Unit {0})
  pub ingest_event : T → Text → Bytes → T × Result IngressError (Unit {0})

-- metricPoints
unfoldable pub metric_points : List (Option MetricPoint) → List MetricPoint
metric_points [] = []
metric_points (none ∷ items) = metric_points items
metric_points (some point ∷ items) = point ∷ metric_points items

-- The first identifier that is not empty.
unfoldable pub event_uuid : Event → Text
event_uuid event =
    if is_empty event.device_uuid
    then (if is_empty event.primary_identity
        then typed_value event.identities (text "uuid")
        else event.primary_identity)
    else event.device_uuid

-- `if err != nil { return err }`, with the state that the call left.
abbrev pub and_then :
    {U : Type 0}
    → U × Result IngressError (Unit {0})
    → (U → U × Result IngressError (Unit {0}))
    → U × Result IngressError (Unit {0})
and_then (state, ok u) rest = rest state
and_then (state, err e) rest = (state, err e)

module _ {S Q T : Type 0} (repo : CommandRepository S) (queue : DeviceCommandQueue Q)
    (telemetry : Telemetry T) where
  abbrev ingest_metrics : T → Text → List (Option MetricPoint) → T × Result IngressError (Unit {0})
  ingest_metrics t uuid [] = (t, ok tt)
  ingest_metrics t uuid (item ∷ items) =
      telemetry.ingest_metrics t uuid (metric_points (item ∷ items))

  abbrev ingest_logs : T → Text → List Text → T × Result IngressError (Unit {0})
  ingest_logs t uuid [] = (t, ok tt)
  ingest_logs t uuid (log ∷ logs) =
      and_then (telemetry.ingest_log t uuid log) (λ t'. ingest_logs t' uuid logs)

  abbrev ingest_receipt : S × Q → Text → Option Receipt → (S × Q) × Result IngressError (Unit {0})
  ingest_receipt c uuid none = (c, ok tt)
  ingest_receipt c uuid (some receipt) = update_command_receipt repo queue c uuid receipt

  abbrev ingest_raw : T → Text → Bytes → EventType → T × Result IngressError (Unit {0})
  ingest_raw t uuid payload event_type_device_error = telemetry.ingest_device_error t uuid payload
  ingest_raw t uuid payload event_type_command_failed = telemetry.ingest_device_error t uuid payload
  ingest_raw t uuid payload event_type_device_event = telemetry.ingest_event t uuid payload
  ingest_raw t uuid payload event_type_raw = telemetry.ingest_event t uuid payload
  ingest_raw t uuid payload (event_type_other n) = (t, ok tt)

  abbrev beside : {A B R : Type 0} → A → B × R → (B × A) × R
  beside a (b, r) = ((b, a), r)

  abbrev after : {A B R : Type 0} → A → B × R → (A × B) × R
  after a (b, r) = ((a, b), r)

  unfoldable pub ingest_one :
      T × (S × Q) → Text → Event → (T × (S × Q)) × Result IngressError (Unit {0})
  ingest_one (t, c) uuid event =
      let payload = raw_payload_bytes event.raw in
      and_then (beside c (ingest_metrics t uuid event.metrics)) (λ st.
        and_then (beside st.1 (ingest_logs st.0 uuid event.logs)) (λ st'.
          and_then (after st'.0 (ingest_receipt st'.1 uuid event.command_receipt)) (λ st''.
            if is_empty payload
            then (st'', ok tt)
            else beside st''.1 (ingest_raw st''.0 uuid payload event.event_type))))

  -- The result of one event, which may be nil.
  abbrev result_of :
      Text → Text → (T × (S × Q)) × Result IngressError (Unit {0}) → (T × (S × Q)) × EventResult
  result_of event_id uuid (st, ok u) =
      (st, record { event_id = event_id; success = true; uuid = uuid; error_code = [] })
  result_of event_id uuid (st, err e) = (
    st,
    record { event_id = event_id; success = false; uuid = uuid; error_code = text "ingest_failed" },
  )

  unfoldable pub event_result : T × (S × Q) → Option Event → (T × (S × Q)) × EventResult
  event_result st none =
      (st, record { event_id = []; success = false; uuid = []; error_code = text "event_required" })
  event_result st (some event) =
      let uuid = event_uuid event in
      if is_empty uuid
      then (
        st,
        record {
          event_id = event.event_id;
          success = false;
          uuid = [];
          error_code = text "uuid_required";
        },
      )
      else result_of event.event_id uuid (ingest_one st uuid event)

  -- After one event: the loop goes on, or returns at a failure that is not tolerated.
  abbrev pub next_events :
      Bool
      → (T × (S × Q) → (T × (S × Q)) × List EventResult)
      → (T × (S × Q)) × EventResult
      → (T × (S × Q)) × List EventResult
  next_events allow_partial rest (st, r) =
      let (st', results) = rest st in
      if r.success || allow_partial then (st', r ∷ results) else (st, r ∷ [])

  unfoldable pub ingest_events :
      Bool → T × (S × Q) → List (Option Event) → (T × (S × Q)) × List EventResult
  ingest_events allow_partial st [] = (st, [])
  ingest_events allow_partial st (event ∷ events) =
      next_events allow_partial (λ st'. ingest_events allow_partial st' events)
        (event_result st event)

-- ReportHeartbeat; none where the uuid is missing.
unfoldable pub report_heartbeat :
    Presence → Text → Text → List TypedValue → ℕ → Presence × Option Text
report_heartbeat s req_uuid primary identities now =
    let trimmed = trim_space req_uuid in
    let uuid =
      if is_empty trimmed
      then (if is_empty primary then typed_value identities (text "uuid") else primary)
      else trimmed in
    if is_empty uuid then (s, none) else (handle_heartbeat s uuid now, some uuid)
