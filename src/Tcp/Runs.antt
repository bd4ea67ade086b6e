-- ===== src/Tcp/Runs.antt =====
-- Runs of connections on concrete bytes, in a world that counts writes and the reports that reach
-- the core. The stand-in for AES-GCM appends sixteen zeros, and that for HMAC gives 32 zeros.
use goster_io_t.Common.{
  ℕ, ◌+◌, ◌^◌, ◌%◌, ◌<◌, ◌≡◌, ◌↔◌, refl, arith, true, false, Option, none, some, [], ◌∷◌, ◌++◌,
  replicate, is_empty,
}
use goster_io_t.Common.Result.{Result, ok, err}
use goster_io_t.Common.Word.{Bytes}
use goster_io_t.Common.Int.{pos}
use goster_io_t.Common.Text.{text, trim_space, str_eq}
use goster_io_t.Common.Assoc.{lookup}
use goster_io_t.Adapter.Types.{AdapterCommand, no_command}
use goster_io_t.Wire.Types.{
  CmdId, cmd_action_exec, cmd_auth_verify, cmd_handshake_init, cmd_heartbeat, Packet,
}
use goster_io_t.Wire.Codec.{Gcm, PackError, pack}
use goster_io_t.Tcp.Types.{
  CanonicalCommand, CoreClient, Env, IsMac, Library, Platform, Session, new_session,
}
use goster_io_t.Tcp.Connection
use goster_io_t.Tcp.Session
use goster_io_t.Tcp.Downlink
use goster_io_t.Tcp.Commands
use goster_io_t.Tcp.Auth
use goster_io_t.Wire.Codec
use goster_io_t.Wire.Types
use goster_io_t.Wire.Checksum
use goster_io_t.Common.Word
use goster_io_t.Tcp.Connection.{Connection, open_connection}
use goster_io_t.Ingress.Commands.{requeue_message}
use goster_io_t.Tcp.Auth.Laws.{Proves, auth_token_from_payload-Proves}
use goster_io_t.Tcp.Commands.Laws.{reported_code, resolve_downlink_cmd-IsDownlink}
use goster_io_t.Tcp.Downlink.{requeue_inflight}
use goster_io_t.Common.{◌≢◌}
use goster_io_t.Tcp.Downlink.Acked.{AckedBy, handle_downlink_ack-mark_downlink_sent}
use goster_io_t.Tcp.Downlink.Returned.{requeue_message-requeue_request}
use goster_io_t.Tcp.Outside.{KeptOutside}
use goster_io_t.Tcp.Connection.Loop.{Returns, frame_budget, serve_total}
use goster_io_t.Tcp.Connection.Outside.{IsOutside, serve-IsOutside}
use goster_io_t.Tcp.Connection.Numbering.{Distinct, nonces, serve-Distinct}
use goster_io_t.Tcp.Connection.Settled.{Settled, serve-Settled}

-- The writes, and the calls of the core that only a device inside may cause.
abbrev World : Type 0
World = ℕ × ℕ

abbrev stand_in : Gcm
stand_in = record {
  accepts = λ k. true;
  seal = λ k n p a. p ++ replicate 16 0;
  unseal = λ k n c a. some c;
}

abbrev library : Library
library = record {
  hmac = λ k m. replicate 32 0;
  float_to_u16 = λ bits. bits % 2 ^ 16;
  parse_uint16 = λ s. none;
  widen = λ bits. bits;
  error_text = λ e. text "failed";
}

library-IsMac : IsMac library
library-IsMac key message = refl

abbrev command : AdapterCommand
command = record no_command {
  command_id = pos 7;
  uuid = text "dev-1";
  operation = text "action";
  payload = 1 ∷ 2 ∷ [];
}

abbrev waiting : CanonicalCommand
waiting = record {
  command_id = pos 7;
  command_uuid = text "";
  tenant_id = text "";
  uuid = text "dev-1";
  target_identity = none;
  operation = text "action";
  protocol_command_code = 0;
  content_type = text "";
  body = 1 ∷ 2 ∷ [];
  body_text = text "";
  json = none;
  adapter_options = none;
  max_attempts = pos 1;
  properties = [];
  labels = [];
}

abbrev core : CoreClient World (Unit {0})
core = record {
  authenticate_device = λ w context token.
      (w, some (record { status = 1; uuid = text "dev-1"; tenant_id = text "t" }));
  register_device = λ w context device payload. (w, none, true);
  report_heartbeat = λ w context identity uuid. ((w.0, w.1 + 1), true);
  ingest_events = λ w event. ((w.0, w.1 + 1), true);
  update_command_status = λ w context request. ((w.0, w.1 + 1), true);
  pull_commands = λ w context uuid identity n. ((w.0, w.1 + 1), some (waiting ∷ []));
}

abbrev platform : Platform World
platform = record {
  write = λ w bytes. ((w.0 + 1, w.1), true);
  now = λ w. (w, 1000);
  unix_now = λ w. (w, 1);
  generate_key = λ w. (w, some (replicate 32 5));
  is_public_key = λ k. true;
  public_of = λ k. replicate 32 6;
  ecdh = λ private peer. some (replicate 32 7);
}

abbrev env : Env World (Unit {0})
env = record {
  has_core = true;
  has_normalizer = true;
  core = core;
  normalizer = record { normalize_event = λ event. some tt; normalize_command = λ c. some command };
  platform = platform;
  library = library;
  gcm = stand_in;
  source_instance = text "ingress";
  remote_addr = text "10.0.0.2";
  local_addr = text "10.0.0.1";
  downlink_max_batch = 1;
}

abbrev packed : Result PackError Bytes → Bytes
packed (ok bytes) = bytes
packed (err e) = []

hello : Bytes
hello = packed (pack stand_in (replicate 32 3) cmd_handshake_init 0 none 1 false)

beat : Bytes
beat = packed (pack stand_in [] cmd_heartbeat 0 none 2 false)

proof_of_token : Bytes
proof_of_token =
    packed (pack stand_in (text "tok" ++ replicate 32 0) cmd_auth_verify 0 none 2 false)

abbrev start : Connection World
start = open_connection (0, 0)

abbrev or_start : Option (Connection World) → Connection World
or_start none = start
or_start (some c) = c

-- A handshake, then a heartbeat without a proof of who is there: the connection is closed.
turned_away : Connection World
unfolding hello beat Connection.serve Codec.unpack Codec.read_full Codec.pack Codec.seal_body
    Codec.key_in_use Codec.header_of Codec.header_front Codec.unpack_header Codec.le_at
    Codec.unpack_body Codec.read_body Codec.check_body Codec.packet_of Codec.open_body
    Codec.nonce_direction Codec.pack_flags Word.put_le Word.get_le Checksum.crc16_modbus
    Checksum.crc32_ieee Connection.finish Connection.on_packet Connection.dispatch
    Connection.on_handshake Connection.negotiate_ephemeral_secret Connection.send_frame
    Connection.handshake_response_payload Connection.is_greeting Session.record_handshake
    Downlink.requeue_inflight text Word.write_at
turned_away = or_start (Connection.serve env 200 start (hello ++ beat))

-- A handshake, the proof, and then the end of the input while a command waits.
let_in : Connection World
unfolding hello proof_of_token Connection.serve Codec.unpack Codec.read_full Codec.pack
    Codec.seal_body Codec.key_in_use Codec.header_of Codec.header_front Codec.unpack_header
    Codec.le_at Codec.unpack_body Codec.read_body Codec.check_body Codec.packet_of Codec.open_body
    Codec.nonce_direction Codec.pack_flags Word.put_le Word.get_le Checksum.crc16_modbus
    Checksum.crc32_ieee Connection.finish Connection.on_packet Connection.dispatch
    Connection.on_handshake Connection.negotiate_ephemeral_secret Connection.send_frame
    Connection.handshake_response_payload Connection.is_greeting Session.record_handshake
    Downlink.requeue_inflight text Word.write_at Session.authenticate Session.bind_device
    Session.ingress_context Session.frame_info Auth.auth_token_from_payload Auth.auth_verify_mac
    str_eq trim_space Connection.deliver_downlinks Downlink.pop_command Downlink.mark_downlink_sent
    Downlink.requeue_downlink Commands.resolve_downlink_cmd Types.is_downlink_command
    Types.command_by_operation Commands.update_request Downlink.requeue_request
    Commands.first_non_empty Commands.command_target_identity lookup
let_in = or_start (Connection.serve env 300 start (hello ++ proof_of_token))

turned_away_run : Connection.serve env 200 start (hello ++ beat) ≡ some turned_away
unfolding turned_away
turned_away_run = refl

let_in_run : Connection.serve env 300 start (hello ++ proof_of_token) ≡ some let_in
unfolding let_in
let_in_run = refl

serve_total_example :
    (last : Connection World) × Returns env start (replicate 40 1 ++ replicate 60 0) last
    × (Connection.serve env 200 start (replicate 40 1 ++ replicate 60 0)
        ≡ some (record last { state = requeue_inflight env last.state }))
serve_total_example = serve_total env 200 start (replicate 40 1 ++ replicate 60 0) (omega arith)

abbrev Untold : World → Type 0
Untold w = w.1 ≡ 0

Untold-KeptOutside : KeptOutside env Untold
Untold-KeptOutside = record {
  write = λ w bytes q. q;
  unix_now = λ w q. q;
  generate_key = λ w q. q;
  authenticate_device = λ w context token q. q;
  register_device = λ w context device payload q. q;
}

stays_out : turned_away.state.1.authenticated ≡ false
unfolding turned_away
stays_out = refl

serve-IsOutside_example : IsOutside Untold turned_away
serve-IsOutside_example =
    serve-IsOutside env Untold 200 (0, 0) (hello ++ beat) turned_away Untold-KeptOutside refl
      turned_away_run stays_out

few_frames : frame_budget env (hello ++ proof_of_token) < 2 ^ 64
unfolding hello proof_of_token Codec.pack Codec.seal_body Codec.key_in_use Codec.header_of
    Codec.header_front Codec.nonce_direction Codec.pack_flags Word.put_le Word.write_at text
    Checksum.crc16_modbus Checksum.crc32_ieee
few_frames = omega arith

serve-Distinct_example : Distinct (nonces let_in.sent)
serve-Distinct_example =
    serve-Distinct env 300 (0, 0) (hello ++ proof_of_token) let_in few_frames let_in_run

serve-Settled_example : Settled env (0, 0) (hello ++ proof_of_token) let_in
serve-Settled_example = serve-Settled env 300 (0, 0) (hello ++ proof_of_token) let_in let_in_run

-- A device that was let in and has a command under way, with the number 3.
abbrev busy : Session
busy = record new_session {
  uuid = text "dev-1";
  authenticated = true;
  inflight = some command;
  inflight_seq = 3;
}

abbrev ack_of : ℕ → Packet
ack_of sequence = record {
  cmd_id = cmd_action_exec;
  key_id = 1;
  sequence = sequence;
  is_ack = true;
  is_encrypted = true;
  is_compressed = false;
  payload = [];
}

abbrev met : Session
met = record new_session {
  client_pub_key = replicate 32 3;
  server_pub_key = replicate 32 6;
  handshake_ts = 1;
}

auth_token_from_payload-Proves_example :
    (Auth.auth_token_from_payload library met (text "tok" ++ replicate 32 0) (some (7 ∷ []))
      ≡ ok (text "tok"))
    ↔ Proves library met (7 ∷ []) (text "tok" ++ replicate 32 0) (text "tok")
auth_token_from_payload-Proves_example =
    auth_token_from_payload-Proves library met (7 ∷ []) (text "tok" ++ replicate 32 0) (text "tok")
      library-IsMac

goes_out : Commands.resolve_downlink_cmd library command ≡ some cmd_action_exec
unfolding Commands.resolve_downlink_cmd Types.is_downlink_command Types.command_by_operation text
    str_eq lookup
goes_out = refl

is_named : is_empty (trim_space busy.uuid) ≡ false
unfolding text trim_space
is_named = refl

requeue_message-requeue_request_example :
    requeue_message (Downlink.requeue_request env busy command (text ""))
    ≡ ok (
      trim_space (Commands.first_non_empty (command.uuid ∷ busy.uuid ∷ [])),
      record {
        command_id = command.command_id;
        cmd_id = reported_code command cmd_action_exec % 2 ^ 16;
        payload = command.payload;
      },
    )
requeue_message-requeue_request_example =
    requeue_message-requeue_request env busy command (text "") cmd_action_exec refl goes_out
      is_named (λ e. cc)

resolve_downlink_cmd-IsDownlink_example : Types.is_downlink_command cmd_action_exec ≡ true
resolve_downlink_cmd-IsDownlink_example =
    resolve_downlink_cmd-IsDownlink library command cmd_action_exec goes_out

different : (ack_of 2).sequence ≢ 3
different e = omega arith

handle_downlink_ack-mark_downlink_sent_example :
    AckedBy env command cmd_action_exec 3 goes_out
      (Downlink.mark_downlink_sent env
        ((0, 0), record new_session { authenticated = true })
        command
        cmd_action_exec
        3)
      (ack_of 2)
      (ack_of 3)
handle_downlink_ack-mark_downlink_sent_example =
    handle_downlink_ack-mark_downlink_sent env command cmd_action_exec 3 goes_out (0, 0)
      (record new_session { authenticated = true }) (ack_of 2) (ack_of 3) refl refl different refl
      refl
