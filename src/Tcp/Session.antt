-- ===== src/Tcp/Session.antt =====
-- session.go: the state of a session, and the handlers that let a device in. Each takes the state of the world with the session, and gives the new
-- one; an error that the caller only logs is a value beside it.
pub mod Cases
use goster_io_t.Common.{
  ℕ, Bool, true, false, ◌&&◌, ◌||◌, not, Option, none, some, List, [], ◌∷◌, ◌≡◌, length, is_empty,
  ◌==◌, if◌then◌else◌,
}
use goster_io_t.Common.Result.{Result, ok, err}
use goster_io_t.Common.Word.{Bytes, u32}
use goster_io_t.Common.Int.{ℤ, is_positive, int_eq}
use goster_io_t.Common.Text.{Text, text, trim_space}
use goster_io_t.Common.Assoc.{Assoc, insert}
use goster_io_t.Adapter.Types.{
  AdapterCommand, AdapterEvent, DeviceDescriptor, FrameInfo, Identity, LogRecord, MetricPoint, Time,
  is_zero_time, no_event, no_frame,
}
use goster_io_t.Wire.Types.{CmdId, Packet, magic_number}
use goster_io_t.Wire.Payload.{
  PayloadError, parse_registration_payload, parse_metrics_payload, parse_log_payload,
}
use goster_io_t.Ingress.Messages.{
  CommandStatus, status_sent, status_acked, status_failed, status_requeued, UpdateRequest,
}
use goster_io_t.Tcp.Types.{
  AuthAnswer, CanonicalCommand, CoreClient, DownlinkError, Env, IngressContext, Library, Normalizer,
  Platform, RegisterAnswer, Session, SessionError, auth_status_accepted,
  registration_status_accepted, registration_status_pending, registration_status_rejected,
  registration_status_unspecified, core_missing, empty_token, rpc_failed, not_accepted,
  unauthorized, normalizer_missing, not_normalized, malformed,
}
use goster_io_t.Tcp.Commands.{ack_request, cmd_or_zero, resolve_downlink_cmd, update_request}
use goster_io_t.Tcp.Auth.{auth_token_from_payload}

-- frameInfo
unfoldable pub frame_info : Packet → FrameInfo
frame_info p = record no_frame {
  magic_number = magic_number;
  command_code = p.cmd_id;
  key_id = p.key_id;
  sequence = p.sequence;
  is_ack = p.is_ack;
  is_encrypted = p.is_encrypted;
  is_compressed = p.is_compressed;
  payload_len = u32 (length p.payload);
}

abbrev pub frame_context : Option Packet → Option FrameInfo
frame_context none = none
frame_context (some p) = some (frame_info p)

unfoldable pub registration_status_byte : ℕ → ℕ
registration_status_byte status =
    if status == registration_status_accepted
    then 0x00
    else if status == registration_status_pending
    then 0x02
    else 0x01

-- An answer that names no status is a refusal.
abbrev pub settled_status : ℕ → ℕ
settled_status status =
    if status == registration_status_unspecified then registration_status_rejected else status

-- The status byte, the rest of the answer, and the error that is logged.
pub record Reply : Type 0 where
  pub status : ℕ
  pub body : Bytes
  pub failure : Option SessionError

abbrev pub refused : SessionError → Reply
refused e = record { status = 0x01; body = []; failure = some e }

unfoldable pub bind_device : Text → Text → Identity → Session → Session
bind_device uuid tenant_id identity s =
    let bound : Identity =
      if is_empty identity.value && not (is_empty uuid)
      then record { kind = text "uuid"; value = uuid; issuer = text "" }
      else identity in
    record s { uuid = uuid; tenant_id = tenant_id; identity = bound; authenticated = true }

abbrev pub uuid_identity : Text → Identity
uuid_identity uuid = record { kind = text "uuid"; value = uuid; issuer = text "" }

unfoldable pub record_handshake : Bytes → Bytes → ℕ → Session → Session
record_handshake client server timestamp s = record s {
  client_pub_key = client;
  server_pub_key = server;
  handshake_ts = timestamp;
}

abbrev pub has_inflight : Session → Bool
has_inflight s = elim s.inflight [ none ↦ false | some msg ↦ true ]

abbrev pub no_inflight : Session → Session
no_inflight s = record s { inflight = none; inflight_seq = 0 }

abbrev pub clear_if : Option AdapterCommand → ℤ → Session → Session
clear_if none id s = s
clear_if (some msg) id s = if int_eq msg.command_id id then no_inflight s else s

unfoldable pub clear_inflight_by_command_id : ℤ → Session → Session
clear_inflight_by_command_id id s = clear_if s.inflight id s

module _ {W E : Type 0} (env : Env W E) where
  unfoldable pub ingress_context : Option Packet → Session → IngressContext
  ingress_context packet s = record {
    source_instance = env.source_instance;
    adapter_id = text "custom_tcp";
    protocol_name = text "goster-wy";
    protocol_version = text "1";
    remote_addr = env.remote_addr;
    local_addr = env.local_addr;
    frame = frame_context packet;
    tenant_id = s.tenant_id;
  }

  abbrev pub after_auth : Session → W × Option AuthAnswer → (W × Session) × Reply
  after_auth s (w, none) = ((w, s), refused rpc_failed)
  after_auth s (w, some answer) =
      if answer.status == auth_status_accepted
      then (
        (w, bind_device answer.uuid answer.tenant_id (uuid_identity answer.uuid) s),
        record { status = 0x00; body = []; failure = none },
      )
      else ((w, s), refused (not_accepted answer.status))

  abbrev pub after_token : W × Session → Packet → Result SessionError Text → (W × Session) × Reply
  after_token (w, s) packet (err e) = ((w, s), refused e)
  after_token (w, s) packet (ok token) =
      if is_empty (trim_space token)
      then ((w, s), refused empty_token)
      else after_auth s
          (env.core.authenticate_device w (ingress_context (some packet) s) (trim_space token))

  unfoldable pub authenticate : W × Session → Packet → Option Bytes → (W × Session) × Reply
  authenticate (w, s) packet session_key =
      if env.has_core
      then after_token (w, s) packet
          (auth_token_from_payload env.library s packet.payload session_key)
      else ((w, s), refused core_missing)

  abbrev pub rpc_error : Bool → Option SessionError
  rpc_error failed = if failed then some rpc_failed else none

  abbrev pub credential_bytes : Option Text → Bytes
  credential_bytes none = []
  credential_bytes (some credential) = credential

  abbrev pub after_register : Session → W × Option RegisterAnswer × Bool → (W × Session) × Reply
  after_register s (w, none, failed) = (
    (w, s),
    record {
      status = registration_status_byte registration_status_rejected;
      body = [];
      failure = rpc_error failed;
    },
  )
  after_register s (w, some answer, failed) =
      let status = settled_status answer.status in
      if status == registration_status_accepted
      then (
        (w, bind_device answer.uuid answer.tenant_id (uuid_identity answer.uuid) s),
        record {
          status = 0x00;
          body = credential_bytes answer.credential;
          failure = rpc_error failed;
        },
      )
      else (
        (w, s),
        record { status = registration_status_byte status; body = []; failure = rpc_error failed },
      )

  abbrev pub after_descriptor :
      W × Session → Packet → Result PayloadError DeviceDescriptor → (W × Session) × Reply
  after_descriptor (w, s) packet (err e) = ((w, s), refused malformed)
  after_descriptor (w, s) packet (ok device) =
      after_register s
        (env.core.register_device w (ingress_context (some packet) s) device packet.payload)

  unfoldable pub register : W × Session → Packet → (W × Session) × Reply
  register (w, s) packet =
      if env.has_core
      then after_descriptor (w, s) packet (parse_registration_payload packet.payload)
      else ((w, s), refused core_missing)
