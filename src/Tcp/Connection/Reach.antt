-- ===== src/Tcp/Connection/Reach.antt =====
-- The rounds of a connection as steps: whatever the device sends, the connection goes through moves
-- of the session and frames that go out.
use goster_io_t.Common.{ℕ, ◌+◌, ◌≤◌, ◌<◌, ◌≡◌, ◌⊎◌, arith, Bool, true, Option, some, ◌∷◌, []}
use goster_io_t.Common.Word.{Bytes}
use goster_io_t.Common.Text.{Text}
use goster_io_t.Adapter.Types.{AdapterCommand}
use goster_io_t.Wire.Types.{CmdId, Packet, cmd_handshake_resp, cmd_auth_ack, one_of}
use goster_io_t.Tcp.Types.{Env, Session}
use goster_io_t.Tcp.Commands.{resolve_downlink_cmd}
use goster_io_t.Tcp.Session.{Reply, authenticate, record_handshake, register}
use goster_io_t.Tcp.Reports.{
  handle_error, handle_event, handle_heartbeat, handle_log, handle_metrics,
}
use goster_io_t.Tcp.Downlink.{
  fail_downlink, handle_downlink_ack, mark_downlink_sent, pop_command, requeue_downlink,
  requeue_inflight,
}
use goster_io_t.Tcp.Connection.{Connection, negotiate_ephemeral_secret, send_frame}

-- The answers that a device may get before it is let in.
abbrev pub is_greeting_answer : CmdId → Bool
is_greeting_answer cmd = one_of cmd (cmd_handshake_resp ∷ cmd_auth_ack ∷ [])

-- A frame may go out to a device that was let in, or as an answer to a greeting.
abbrev pub MaySend : {W : Type 0} → Connection W → CmdId → Type 0
MaySend c cmd = (c.state.1.authenticated ≡ true) ⊎ (is_greeting_answer cmd ≡ true)

-- The handlers of the five kinds of report.
pub data Handler : Type 0 where
  heartbeat metrics log event failure : Handler

module _ {W E : Type 0} (env : Env W E) where
  abbrev pub run_handler : Handler → W × Session → Packet → W × Bool
  run_handler heartbeat st packet = handle_heartbeat env st packet
  run_handler metrics st packet = handle_metrics env st packet
  run_handler log st packet = handle_log env st packet
  run_handler event st packet = handle_event env st packet
  run_handler failure st packet = handle_error env st packet

  -- One call of the loop that changes the world or the session.
  pub data Move : W × Session → W × Session → Type 0 where
    negotiates :
        {st : W × Session} (peer : Bytes) {w : W} {agreed : Option (Bytes × Bytes)}
        → negotiate_ephemeral_secret env st.0 peer ≡ (w, agreed)
        → Move st (w, st.1)
    meets :
        {st : W × Session} (client server : Bytes) {w : W} {timestamp : ℕ}
        → env.platform.unix_now st.0 ≡ (w, timestamp)
        → Move st (w, record_handshake client server timestamp st.1)
    authenticates :
        {st : W × Session} (packet : Packet) (key : Option Bytes) {st' : W × Session}
        {reply : Reply}
        → authenticate env st packet key ≡ (st', reply)
        → Move st st'
    registers :
        {st : W × Session} (packet : Packet) {st' : W × Session} {reply : Reply}
        → register env st packet ≡ (st', reply)
        → Move st st'
    reports :
        {st : W × Session} (packet : Packet) (handle : Handler) {w : W} {handled : Bool}
        → run_handler handle st packet ≡ (w, handled)
        → Move st (w, st.1)
    acknowledges :
        (st : W × Session) (packet : Packet) → Move st (handle_downlink_ack env st packet)
    pops :
        {st : W × Session} {w : W} {popped : Option AdapterCommand}
        → pop_command env st ≡ (w, popped)
        → Move st (w, st.1)
    gives_up :
        (st : W × Session) (msg : AdapterCommand) (error_text : Text)
        → Move st (fail_downlink env st msg error_text)
    puts_back :
        (st : W × Session) (msg : AdapterCommand) (error_text : Text)
        → Move st (requeue_downlink env st msg error_text)
    marks :
        (st : W × Session) (msg : AdapterCommand) (cmd : CmdId) (seq : ℕ)
        → resolve_downlink_cmd env.library msg ≡ some cmd
        → Move st (mark_downlink_sent env st msg cmd seq)
    stays : (st : W × Session) → Move st st
    ends : (st : W × Session) → Move st (requeue_inflight env st)

  -- What a connection can come to from `c`, with at most `n` frames that go out.
  pub data Reach (c : Connection W) : ℕ → Connection W → Type 0 where
    here : {n : ℕ} → Reach c n c
    move :
        {n : ℕ} {d : Connection W} {st : W × Session} (key : Option Bytes)
        → Reach c n d
        → Move d.state st
        → Reach c n (record d { state = st; session_key = key })
    send :
        {m n : ℕ} {d : Connection W} (payload : Bytes) (cmd : CmdId) (key_id : ℕ)
        (key : Option Bytes) (is_ack : Bool)
        → m < n
        → Reach c m d
        → MaySend d cmd
        → Reach c n (send_frame env d payload cmd key_id key is_ack).0

  -- A greater bound on the frames is a bound, too.
  pub Reach-le : {c d : Connection W} {m n : ℕ} → m ≤ n → Reach c m d → Reach c n d
  Reach-le h here = here
  Reach-le h (move key r st) = move key (Reach-le h r) st
  Reach-le h (send payload cmd key_id key is_ack lt r may) =
      send payload cmd key_id key is_ack (omega arith) r may

  pub Reach-trans : {c d e : Connection W} {m n : ℕ} → Reach c m d → Reach d n e → Reach c (m + n) e
  Reach-trans {m} {n} first here = Reach-le (omega arith) first
  Reach-trans first (move key r st) = move key (Reach-trans first r) st
  Reach-trans first (send payload cmd key_id key is_ack lt r may) =
      send payload cmd key_id key is_ack (omega arith) (Reach-trans first r) may
