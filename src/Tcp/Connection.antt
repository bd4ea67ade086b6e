-- ===== src/Tcp/Connection.antt =====
-- adapter.go: handleConnection, the loop over the frames of one connection. The reader is the list
-- of the bytes that arrive before the connection ends, by whichever side or timeout.
pub mod Reach
pub mod Rounds
pub mod Deliveries
pub mod Loop
pub mod Numbering
pub mod Outside
pub mod Settled
use goster_io_t.Common.{
  ℕ, zero, suc, ◌+◌, Bool, true, false, ◌&&◌, ◌||◌, not, Option, none, some, List, [], ◌∷◌, length,
  replicate, ◌==◌, if◌then◌else◌, is_empty,
}
use goster_io_t.Common.Result.{Result, ok, err}
use goster_io_t.Common.Word.{Bytes, put_le, u64, write_at}
use goster_io_t.Common.Text.{Text, text}
use goster_io_t.Adapter.Types.{AdapterCommand}
use goster_io_t.Wire.Types.{
  CmdId, Packet, cmd_handshake_init, cmd_handshake_resp, cmd_auth_verify, cmd_auth_ack,
  cmd_device_register, cmd_error_report, cmd_metrics_report, cmd_log_report, cmd_event_report,
  cmd_heartbeat, cmd_key_exchange_uplink, cmd_key_exchange_downlink, is_downlink_command, one_of,
}
use goster_io_t.Wire.Codec.{PackError, UnpackError, pack, unpack}
use goster_io_t.Tcp.Types.{
  DownlinkError, Env, Library, Platform, Session, new_session, pack_failed, unmapped, write_failed,
}
use goster_io_t.Tcp.Commands.{resolve_downlink_cmd}
use goster_io_t.Tcp.Session.{Reply, authenticate, record_handshake, register}
use goster_io_t.Tcp.Reports.{
  handle_error, handle_event, handle_heartbeat, handle_log, handle_metrics,
}
use goster_io_t.Tcp.Downlink.{
  fail_downlink, handle_downlink_ack, mark_downlink_sent, pop_command, requeue_downlink,
  requeue_inflight,
}

-- What codec.Pack was given for a frame that went to the socket.
pub record Frame : Type 0 where
  pub payload : Bytes
  pub cmd_id : CmdId
  pub key_id : ℕ
  pub session_key : Option Bytes
  pub sequence : ℕ
  pub is_ack : Bool

-- The world and the session, the loop's variables, and the frames that went to the socket, the last
-- one first.
pub record Connection (W : Type 0) : Type 0 where
  pub state : W × Session
  pub session_key : Option Bytes
  pub write_seq : ℕ
  pub sent : List Frame

abbrev pub open_connection : {W : Type 0} → W → Connection W
open_connection w = record {
  state = (w, new_session);
  session_key = none;
  write_seq = 0;
  sent = [];
}

-- What a round of the loop does next: go on, or return.
pub data Next (W : Type 0) : Type 0 where
  going : Connection W → Next W
  closing : Connection W → Next W

-- What became of a frame.
pub data Delivery : Type 0 where
  delivered : Delivery
  not_packed : PackError → Delivery
  not_written : Delivery

-- The commands that are handled before the device is let in.
unfoldable pub is_greeting : CmdId → Bool
is_greeting cmd =
    cmd == cmd_handshake_init || (cmd == cmd_auth_verify || cmd == cmd_device_register)

-- make([]byte, 32+8), the key and the time
unfoldable pub handshake_response_payload : Bytes → ℕ → Bytes
handshake_response_payload server_pub_key timestamp =
    write_at 32 (put_le 8 timestamp) (write_at 0 server_pub_key (replicate 40 0))

module _ {W E : Type 0} (env : Env W E) where
  -- conn.Write is not called for no bytes.
  abbrev pub write_all : W → Bytes → W × Bool
  write_all w [] = (w, true)
  write_all w (b ∷ bytes) = env.platform.write w (b ∷ bytes)

  abbrev pub put_frame : Connection W → Frame → W × Bool → Connection W × Delivery
  put_frame c frame (w, true) =
      (record c { state = (w, c.state.1); sent = frame ∷ c.sent }, delivered)
  put_frame c frame (w, false) =
      (record c { state = (w, c.state.1); sent = frame ∷ c.sent }, not_written)

  abbrev pub put_packed : Connection W → Frame → Result PackError Bytes → Connection W × Delivery
  put_packed c frame (err e) = (c, not_packed e)
  put_packed c frame (ok bytes) = put_frame c frame (write_all c.state.0 bytes)

  -- `writeSeq++`, codec.Pack and writeAll.
  unfoldable pub send_frame :
      Connection W → Bytes → CmdId → ℕ → Option Bytes → Bool → Connection W × Delivery
  send_frame c payload cmd key_id key is_ack =
      let seq = u64 (c.write_seq + 1) in
      let frame : Frame = record {
        payload = payload;
        cmd_id = cmd;
        key_id = key_id;
        session_key = key;
        sequence = seq;
        is_ack = is_ack;
      } in
      let counted : Connection W = record c { write_seq = seq } in
      put_packed counted frame (pack env.gcm payload cmd key_id key seq is_ack)

  abbrev pub or_close : Connection W × Delivery → Next W
  or_close (c, delivered) = going c
  or_close (c, failed) = closing c

  -- negotiateEphemeralSecret
  abbrev pub agree : Bytes → W × Option Bytes → W × Option (Bytes × Bytes)
  agree peer (w, none) = (w, none)
  agree peer (w, some private) = elim (env.platform.ecdh private peer) [
    | none ↦ (w, none)
    | some secret ↦ (w, some (secret, env.platform.public_of private))
  ]

  unfoldable pub negotiate_ephemeral_secret : W → Bytes → W × Option (Bytes × Bytes)
  negotiate_ephemeral_secret w peer =
      if env.platform.is_public_key peer
      then agree peer (env.platform.generate_key w)
      else (w, none)

  -- The response to a handshake goes out in the clear.
  abbrev pub greet : Connection W → Packet → Bytes × Bytes → W × ℕ → Next W
  greet c packet (secret, server) (w, timestamp) =
      let s = record_handshake packet.payload server timestamp c.state.1 in
      let met : Connection W = record c { state = (w, s); session_key = some secret } in
      or_close (
        send_frame met (handshake_response_payload server timestamp) cmd_handshake_resp 0 none true)

  abbrev pub after_negotiation : Connection W → Packet → W × Option (Bytes × Bytes) → Next W
  after_negotiation c packet (w, none) = closing (record c { state = (w, c.state.1) })
  after_negotiation c packet (w, some agreed) = greet c packet agreed (env.platform.unix_now w)

  unfoldable pub on_handshake : Connection W → Packet → Next W
  on_handshake c packet =
      if length packet.payload == 32
      then after_negotiation c packet (negotiate_ephemeral_secret c.state.0 packet.payload)
      else closing c

  -- A status other than 0 ends the connection once it is sent.
  abbrev pub close_unless : Bool → Next W → Next W
  close_unless true next = next
  close_unless false (going c) = closing c
  close_unless false (closing c) = closing c

  -- The answer to AuthVerify and to DeviceRegister.
  abbrev pub answer : Connection W → (W × Session) × Reply → Next W
  answer c (state, reply) =
      let let_in : Connection W = record c { state = state } in
      close_unless (reply.status == 0)
        (or_close (send_frame let_in (reply.status ∷ reply.body) cmd_auth_ack 1 c.session_key true))

  -- The empty acknowledgement of a report, whatever came of the report.
  abbrev pub acknowledge : Connection W → CmdId → W × Bool → Next W
  acknowledge c cmd (w, handled) =
      let reported : Connection W = record c { state = (w, c.state.1) } in
      or_close (send_frame reported [] cmd 1 c.session_key true)

  -- The new key counts from the frame behind the response.
  abbrev pub switch_key : Bytes → Next W → Next W
  switch_key secret (going c) = going (record c { session_key = some secret })
  switch_key secret (closing c) = closing c

  abbrev pub after_rekey : Connection W → W × Option (Bytes × Bytes) → Next W
  after_rekey c (w, none) = closing (record c { state = (w, c.state.1) })
  after_rekey c (w, some (secret, server)) =
      let agreed : Connection W = record c { state = (w, c.state.1) } in
      switch_key secret
        (or_close (send_frame agreed server cmd_key_exchange_downlink 1 c.session_key true))

  abbrev pub close_after : Connection W → W × Bool → Next W
  close_after c (w, handled) = closing (record c { state = (w, c.state.1) })

  abbrev pub on_downlink_ack : Connection W → Packet → Next W
  on_downlink_ack c packet =
      if packet.is_ack
      then going (record c { state = handle_downlink_ack env c.state packet })
      else going c

  -- The switch over the command.
  unfoldable pub dispatch : Connection W → Packet → Next W
  dispatch c packet =
      let cmd = packet.cmd_id in
      if cmd == cmd_handshake_init
      then on_handshake c packet
      else if cmd == cmd_auth_verify
      then answer c (authenticate env c.state packet c.session_key)
      else if cmd == cmd_device_register
      then answer c (register env c.state packet)
      else if cmd == cmd_metrics_report
      then acknowledge c cmd_metrics_report (handle_metrics env c.state packet)
      else if cmd == cmd_log_report
      then acknowledge c cmd_log_report (handle_log env c.state packet)
      else if cmd == cmd_event_report
      then acknowledge c cmd_event_report (handle_event env c.state packet)
      else if cmd == cmd_heartbeat
      then acknowledge c cmd_heartbeat (handle_heartbeat env c.state packet)
      else if cmd == cmd_key_exchange_uplink
      then after_rekey c (negotiate_ephemeral_secret c.state.0 packet.payload)
      else if is_downlink_command cmd
      then on_downlink_ack c packet
      else if cmd == cmd_error_report
      then close_after c (handle_error env c.state packet)
      else going c

  -- A frame of a command that was pulled.
  abbrev pub after_send :
      (Connection W → Next W) → AdapterCommand → CmdId → Connection W × Delivery → Next W
  after_send next msg cmd (c, delivered) =
      next (record c { state = mark_downlink_sent env c.state msg cmd c.write_seq })
  after_send next msg cmd (c, not_packed e) =
      next (record c {
        state = fail_downlink env c.state msg (env.library.error_text (pack_failed e));
      })
  after_send next msg cmd (c, not_written) =
      closing (record c {
        state = requeue_downlink env c.state msg (env.library.error_text write_failed);
      })

  abbrev pub after_resolve :
      (Connection W → Next W) → Connection W → AdapterCommand → Option CmdId → Next W
  after_resolve next c msg none = next (record c {
    state = fail_downlink env c.state msg (env.library.error_text (unmapped msg.operation));
  })
  after_resolve next c msg (some cmd) =
      after_send next msg cmd (send_frame c msg.payload cmd 1 c.session_key false)

  abbrev pub after_pop : (Connection W → Next W) → Connection W → W × Option AdapterCommand → Next W
  after_pop next c (w, none) = going (record c { state = (w, c.state.1) })
  after_pop next c (w, some msg) =
      after_resolve next (record c { state = (w, c.state.1) }) msg
        (resolve_downlink_cmd env.library msg)

  -- The loop over DownlinkMaxBatch, by the rounds left.
  unfoldable pub deliver_downlinks : ℕ → Connection W → Next W
  deliver_downlinks zero c = going c
  deliver_downlinks (suc left) c =
      after_pop (λ later. deliver_downlinks left later) c (pop_command env c.state)

  abbrev pub then_downlinks : Next W → Next W
  then_downlinks (closing c) = closing c
  then_downlinks (going c) =
      if c.state.1.authenticated then deliver_downlinks env.downlink_max_batch c else going c

  -- One round of the loop, for a frame that was unpacked.
  unfoldable pub on_packet : Connection W → Packet → Next W
  on_packet c packet =
      if c.state.1.authenticated || is_greeting packet.cmd_id
      then then_downlinks (dispatch c packet)
      else closing c

  -- The deferred RequeueInflight.
  unfoldable pub finish : Connection W → Connection W
  finish c = record c { state = requeue_inflight env c.state }

  abbrev pub follow : (Connection W → Option (Connection W)) → Next W → Option (Connection W)
  follow serve_rest (closing c) = some (finish c)
  follow serve_rest (going c) = serve_rest c

  abbrev pub after_unpack :
      (Connection W → Bytes → Option (Connection W))
      → Connection W
      → Result UnpackError (Packet × Bytes)
      → Option (Connection W)
  after_unpack serve_rest c (err e) = some (finish c)
  after_unpack serve_rest c (ok (packet, reader)) =
      follow (λ later. serve_rest later reader) (on_packet c packet)

  -- The loop, on fuel: `none` means that the fuel ran out.
  unfoldable pub serve : ℕ → Connection W → Bytes → Option (Connection W)
  serve zero c reader = none
  serve (suc fuel) c reader =
      after_unpack (λ later rest. serve fuel later rest) c (unpack env.gcm reader c.session_key)
