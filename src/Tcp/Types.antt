-- ===== src/Tcp/Types.antt =====
-- What a connection works with: its session, its messages to the core, and its environment.
use goster_io_t.Common.{ℕ, ◌≡◌, Bool, false, Option, none, List, [], length}
use goster_io_t.Common.Word.{Bytes}
use goster_io_t.Common.Int.{ℤ}
use goster_io_t.Common.Text.{Text, text}
use goster_io_t.Common.Assoc.{Assoc}
use goster_io_t.Adapter.Types.{
  AdapterCommand, AdapterEvent, AnyValue, DeviceDescriptor, FrameInfo, Identity, Time, no_identity,
}
use goster_io_t.Wire.Codec.{Gcm, PackError}
use goster_io_t.Ingress.Messages.{UpdateRequest}

-- A field of an embedded lock is left out: one goroutine runs the connection.
pub record Session : Type 0 where
  pub uuid : Text
  pub tenant_id : Text
  pub identity : Identity
  pub authenticated : Bool
  pub inflight : Option AdapterCommand
  pub inflight_seq : ℕ
  pub client_pub_key : Bytes
  pub server_pub_key : Bytes
  pub handshake_ts : ℕ

-- IngressContext, less the time of receipt.
pub record IngressContext : Type 0 where
  pub source_instance : Text
  pub adapter_id : Text
  pub protocol_name : Text
  pub protocol_version : Text
  pub remote_addr : Text
  pub local_addr : Text
  pub frame : Option FrameInfo
  pub tenant_id : Text

-- The answer to AuthenticateDevice, and to RegisterDevice with the credential's value.
pub record AuthAnswer : Type 0 where
  pub status : ℕ
  pub uuid : Text
  pub tenant_id : Text

pub record RegisterAnswer : Type 0 where
  pub status : ℕ
  pub uuid : Text
  pub tenant_id : Text
  pub credential : Option Text

-- The numbers of AuthStatus and RegistrationStatus that the adapter tells apart.
abbrev pub auth_status_accepted : ℕ
auth_status_accepted = 1

abbrev pub registration_status_unspecified : ℕ
registration_status_unspecified = 0

abbrev pub registration_status_accepted : ℕ
registration_status_accepted = 1

abbrev pub registration_status_pending : ℕ
registration_status_pending = 2

abbrev pub registration_status_rejected : ℕ
registration_status_rejected = 3

-- A command as the core hands it over. `json` is there when the struct is, and holds what
-- json.Marshal makes of it where that succeeds.
pub record CanonicalCommand : Type 0 where
  pub command_id : ℤ
  pub command_uuid : Text
  pub tenant_id : Text
  pub uuid : Text
  pub target_identity : Option Identity
  pub operation : Text
  pub protocol_command_code : ℕ
  pub content_type : Text
  pub body : Bytes
  pub body_text : Text
  pub json : Option (Option Bytes)
  pub adapter_options : Option (Assoc AnyValue)
  pub max_attempts : ℤ
  pub properties : Assoc Text
  pub labels : Assoc Text

pub data SessionError : Type 0 where
  core_missing no_session_key no_handshake no_mac wrong_mac empty_token : SessionError
  rpc_failed unauthorized normalizer_missing not_normalized malformed : SessionError
  not_accepted : ℕ → SessionError

-- Why a command for the device failed or goes back.
pub data DownlinkError : Type 0 where
  unmapped : Text → DownlinkError
  pack_failed : PackError → DownlinkError
  write_failed : DownlinkError

-- coreclient.Client: a call changes the world and gives an answer, `none` or a fault for an error.
-- RegisterDevice may give an answer and an error at once.
pub record CoreClient (W E : Type 0) : Type 0 where
  pub authenticate_device : W → IngressContext → Text → W × Option AuthAnswer
  pub register_device :
      W → IngressContext → DeviceDescriptor → Text → W × Option RegisterAnswer × Bool
  pub report_heartbeat : W → IngressContext → Identity → Text → W × Bool
  pub ingest_events : W → E → W × Bool
  pub update_command_status : W → IngressContext → UpdateRequest → W × Bool
  pub pull_commands : W → IngressContext → Text → Identity → ℕ → W × Option (List CanonicalCommand)

-- normalizer.Normalizer
pub record Normalizer (E : Type 0) : Type 0 where
  pub normalize_event : AdapterEvent → Option E
  pub normalize_command : CanonicalCommand → Option AdapterCommand

-- The socket, the clock and the curve X25519. `write` sends all of the bytes or fails.
pub record Platform (W : Type 0) : Type 0 where
  pub write : W → Bytes → W × Bool
  pub now : W → W × Time
  pub unix_now : W → W × ℕ
  pub generate_key : W → W × Option Bytes
  pub is_public_key : Bytes → Bool
  pub public_of : Bytes → Bytes
  pub ecdh : Bytes → Bytes → Option Bytes

-- HMAC-SHA256, conversions of numbers (uint16 of a float64, strconv.ParseUint with base 0 and 16
-- bits, float64 of a float32) and the texts of errors.
pub record Library : Type 0 where
  pub hmac : Bytes → Bytes → Bytes
  pub float_to_u16 : ℕ → ℕ
  pub parse_uint16 : Text → Option ℕ
  pub widen : ℕ → ℕ
  pub error_text : DownlinkError → Text

-- A digest has 32 bytes.
abbrev pub IsMac : Library → Type 0
IsMac lib = (key message : Bytes) → length (lib.hmac key message) ≡ 32

-- The adapter with what it was given, and the addresses of the connection.
pub record Env (W E : Type 0) : Type 0 where
  pub has_core : Bool
  pub has_normalizer : Bool
  pub core : CoreClient W E
  pub normalizer : Normalizer E
  pub platform : Platform W
  pub library : Library
  pub gcm : Gcm
  pub source_instance : Text
  pub remote_addr : Text
  pub local_addr : Text
  pub downlink_max_batch : ℕ

abbrev pub new_session : Session
new_session = record {
  uuid = text "";
  tenant_id = text "";
  identity = no_identity;
  authenticated = false;
  inflight = none;
  inflight_seq = 0;
  client_pub_key = [];
  server_pub_key = [];
  handshake_ts = 0;
}
