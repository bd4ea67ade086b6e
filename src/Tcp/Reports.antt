-- ===== src/Tcp/Reports.antt =====
-- The handlers of session.go for what a device reports. None of them changes the session; the
-- Boolean is `err == nil`.
use goster_io_t.Common.{Bool, false, ◌&&◌, not, Option, none, some, List, [], if◌then◌else◌}
use goster_io_t.Common.Result.{Result, ok, err}
use goster_io_t.Common.Text.{Text, text}
use goster_io_t.Common.Assoc.{insert}
use goster_io_t.Adapter.Types.{AdapterEvent, LogRecord, MetricPoint, Time, is_zero_time, no_event}
use goster_io_t.Wire.Types.{Packet}
use goster_io_t.Wire.Payload.{PayloadError, parse_metrics_payload, parse_log_payload}
use goster_io_t.Tcp.Types.{Env, Session}
use goster_io_t.Tcp.Session.{frame_info, ingress_context}

module _ {W E : Type 0} (env : Env W E) where
  abbrev pub ingest_canonical : W → Option E → W × Bool
  ingest_canonical w none = (w, false)
  ingest_canonical w (some canonical) = env.core.ingest_events w canonical

  -- The event with what the connection knows of it.
  unfoldable pub complete_event : Session → Packet → Time → AdapterEvent → AdapterEvent
  complete_event s packet now event = record event {
    adapter_name = text "custom_tcp";
    protocol_name = text "goster-wy";
    protocol_version = text "1";
    transport = text "stream";
    remote_addr = env.remote_addr;
    local_addr = env.local_addr;
    tenant_id = s.tenant_id;
    received_at = now;
    occurred_at = if is_zero_time event.occurred_at then now else event.occurred_at;
    frame = frame_info packet;
    labels = insert (text "adapter_protocol") (text "goster-wy") event.labels;
  }

  unfoldable pub ingest_event : W × Session → Packet → AdapterEvent → W × Bool
  unfolding complete_event
  ingest_event (w, s) packet event =
      let (w', now) = env.platform.now w in
      if env.has_core && env.has_normalizer
      then ingest_canonical w' (env.normalizer.normalize_event (complete_event s packet now event))
      else (w, false)

  -- What the four kinds of event share.
  unfoldable pub report_of : Session → Packet → Text → AdapterEvent
  report_of s packet kind = record no_event {
    kind = kind;
    uuid = s.uuid;
    identity = s.identity;
    raw = packet.payload;
    raw_content_type = text "application/octet-stream";
  }

  unfoldable pub handle_heartbeat : W × Session → Packet → W × Bool
  handle_heartbeat (w, s) packet =
      if not s.authenticated
      then (w, false)
      else if env.has_core
      then env.core.report_heartbeat w (ingress_context env (some packet) s) s.identity s.uuid
      else (w, false)

  abbrev pub ingest_metrics :
      W × Session → Packet → Result PayloadError (List MetricPoint) → W × Bool
  ingest_metrics (w, s) packet (err e) = (w, false)
  ingest_metrics (w, s) packet (ok points) =
      ingest_event (w, s) packet
        (record (report_of s packet (text "telemetry")) { metrics = points })

  unfoldable pub handle_metrics : W × Session → Packet → W × Bool
  handle_metrics (w, s) packet =
      if not s.authenticated
      then (w, false)
      else ingest_metrics (w, s) packet (parse_metrics_payload env.library.widen packet.payload)

  abbrev pub ingest_log : W × Session → Packet → Result PayloadError LogRecord → W × Bool
  ingest_log (w, s) packet (err e) = (w, false)
  ingest_log (w, s) packet (ok entry) =
      ingest_event (w, s) packet (record (report_of s packet (text "log")) { log = some entry })

  unfoldable pub handle_log : W × Session → Packet → W × Bool
  handle_log (w, s) packet =
      if not s.authenticated
      then (w, false)
      else ingest_log (w, s) packet (parse_log_payload packet.payload)

  unfoldable pub handle_event : W × Session → Packet → W × Bool
  handle_event (w, s) packet =
      if not s.authenticated
      then (w, false)
      else ingest_event (w, s) packet (report_of s packet (text "event"))

  unfoldable pub handle_error : W × Session → Packet → W × Bool
  handle_error (w, s) packet =
      let (w', now) = env.platform.now w in
      let entry : LogRecord = record {
        level = text "error";
        message = packet.payload;
        namespace = text "device";
        observed_at = now;
        fields = [];
      } in
      if not s.authenticated
      then (w, false)
      else ingest_event (w', s) packet
          (record (report_of s packet (text "error")) { log = some entry })
