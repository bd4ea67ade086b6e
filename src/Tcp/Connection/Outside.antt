-- ===== src/Tcp/Connection/Outside.antt =====
-- A connection whose device is never let in.
use goster_io_t.Common.{
  ℕ, ◌+◌, ◌≡◌, inl, inr, refl, sym, ap, ◌∙◌, Bool, true, false, Option, none, some, [], ◌∷◌, All,
}
use mathlib.Core.Path.{subst}
use goster_io_t.Common.Result.{Result, ok, err}
use goster_io_t.Common.Word.{Bytes, u64}
use goster_io_t.Wire.Types.{CmdId, Packet}
use goster_io_t.Wire.Codec.{PackError, pack}
use goster_io_t.Tcp.Types.{Env, Session}
use goster_io_t.Tcp.Session.{Reply, record_handshake}
use goster_io_t.Tcp.Downlink.Access.{
  fail_downlink-authenticated, handle_downlink_ack-authenticated, mark_downlink_sent-authenticated,
  requeue_downlink-authenticated, requeue_inflight-authenticated,
}
use goster_io_t.Tcp.Outside.{
  KeptOutside, Quiet, authenticate-Quiet, fail_downlink-refused, handle_downlink_ack-refused,
  handle_error-refused, handle_event-refused, handle_heartbeat-refused, handle_log-refused,
  handle_metrics-refused, mark_downlink_sent-refused, pop_command-refused, register-Quiet,
  requeue_downlink-refused, requeue_inflight-refused, same-Quiet, world-Quiet,
}
use goster_io_t.Tcp.Connection
use goster_io_t.Tcp.Connection.{Connection, Frame, open_connection, send_frame}
use goster_io_t.Tcp.Connection.Reach.{
  Handler, MaySend, Move, Reach, event, failure, heartbeat, here, is_greeting_answer, log, metrics,
  move, run_handler, send,
}
use goster_io_t.Tcp.Connection.Deliveries.{send_frame-session}
use goster_io_t.Tcp.Connection.Loop.{serve-Reach}

run_handler-refused :
    {W E : Type 0} (env : Env W E) (handle : Handler) (st : W × Session) (packet : Packet)
    → st.1.authenticated ≡ false
    → run_handler env handle st packet ≡ (st.0, false)
run_handler-refused env heartbeat st packet out = handle_heartbeat-refused env st out packet
run_handler-refused env metrics st packet out = handle_metrics-refused env st out packet
run_handler-refused env log st packet out = handle_log-refused env st out packet
run_handler-refused env event st packet out = handle_event-refused env st out packet
run_handler-refused env failure st packet out = handle_error-refused env st out packet

module _ {W E : Type 0} (env : Env W E) (Q : W → Type 0) (kept : KeptOutside env Q) where
  agree-keeps : (peer : Bytes) (x : W × Option Bytes) → Q x.0 → Q (Connection.agree env peer x).0
  agree-keeps peer (w, none) q = q
  agree-keeps peer (w, some private) q = agreed (env.platform.ecdh private peer) q
    where
      agreed :
          (o : Option Bytes)
          → Q w
          → Q
              (elim o as (λ _. W × Option (Bytes × Bytes)) [
                | none ↦ (w, none)
                | some secret ↦ (w, some (secret, env.platform.public_of private))
              ]).0
      agreed none q = q
      agreed (some secret) q = q

  negotiate-keeps :
      (w : W) (peer : Bytes) → Q w → Q (Connection.negotiate_ephemeral_secret env w peer).0
  unfolding Connection.negotiate_ephemeral_secret
  negotiate-keeps w peer q = tested (env.platform.is_public_key peer)
    where
      tested :
          (b : Bool)
          → Q
              (Connection.if◌then◌else◌ {A = W × Option (Bytes × Bytes)} b
                (Connection.agree env peer (env.platform.generate_key w))
                (w, none)).0
      tested true = agree-keeps peer (env.platform.generate_key w) (kept.generate_key w q)
      tested false = q

  -- Where nothing changes outside, the world is kept.
  unchanged-Quiet :
      (st st' : W × Session)
      → st'.1.authenticated ≡ st.1.authenticated
      → (st.1.authenticated ≡ false → st'.0 ≡ st.0)
      → Quiet env Q kept st st'
  unchanged-Quiet st st' same unchanged = record {
    stays_out = λ out. sym same ∙ out;
    keeps = λ out q. subst Q (sym (unchanged (sym same ∙ out))) q;
  }

  Move-Quiet : {st st' : W × Session} → Move env st st' → Quiet env Q kept st st'
  unfolding record_handshake
  Move-Quiet {st} {st'} (Move.negotiates peer {w} e) =
      world-Quiet env Q kept st w
        (λ q. subst Q (ap (λ (x : W × _). x.0) e) (negotiate-keeps st.0 peer q))
  Move-Quiet {st} {st'} (Move.meets client server {w} e) = record {
    stays_out = λ out. out;
    keeps = λ out q. subst Q (ap (λ (x : W × ℕ). x.0) e) (kept.unix_now st.0 q);
  }
  Move-Quiet {st} {st'} (Move.authenticates packet key e) =
      subst (λ (x : (W × Session) × Reply). Quiet env Q kept st x.0) e
        (authenticate-Quiet env Q kept st packet key)
  Move-Quiet {st} {st'} (Move.registers packet e) =
      subst (λ (x : (W × Session) × Reply). Quiet env Q kept st x.0) e
        (register-Quiet env Q kept st packet)
  Move-Quiet {st} {st'} (Move.reports packet handle {w} e) =
      unchanged-Quiet st st' refl
        λ out. ap (λ (x : W × Bool). x.0) (sym e ∙ run_handler-refused env handle st packet out)
  Move-Quiet {st' = st'} (Move.acknowledges st packet) =
      unchanged-Quiet st st' (handle_downlink_ack-authenticated env st packet)
        λ out. ap (λ (x : W × Session). x.0) (handle_downlink_ack-refused env st out packet)
  Move-Quiet {st} {st'} (Move.pops {w} e) =
      unchanged-Quiet st st' refl
        λ out. ap (λ (x : W × _). x.0) (sym e ∙ pop_command-refused env st out)
  Move-Quiet {st' = st'} (Move.gives_up st msg error_text) =
      unchanged-Quiet st st' (fail_downlink-authenticated env st msg error_text)
        λ out. ap (λ (x : W × Session). x.0) (fail_downlink-refused env st out msg error_text)
  Move-Quiet {st' = st'} (Move.puts_back st msg error_text) =
      unchanged-Quiet st st' (requeue_downlink-authenticated env st msg error_text)
        λ out. ap (λ (x : W × Session). x.0) (requeue_downlink-refused env st out msg error_text)
  Move-Quiet {st' = st'} (Move.marks st msg cmd seq known) =
      unchanged-Quiet st st' (mark_downlink_sent-authenticated env st msg cmd seq)
        λ out. ap (λ (x : W × Session). x.0) (mark_downlink_sent-refused env st out msg cmd seq)
  Move-Quiet (Move.stays st) = same-Quiet env Q kept st
  Move-Quiet {st' = st'} (Move.ends st) =
      unchanged-Quiet st st' (requeue_inflight-authenticated env st)
        (requeue_inflight-refused env st)

-- The connection of a device that is outside: the world is as it was kept, and only answers to
-- greetings have gone out.
pub record IsOutside {W : Type 0} (Q : W → Type 0) (c : Connection W) : Type 0 where
  pub world : Q c.state.0
  pub frames : All (λ (f : Frame). is_greeting_answer f.cmd_id ≡ true) c.sent

module _ {W E : Type 0} (env : Env W E) (Q : W → Type 0) (kept : KeptOutside env Q) where
  write_all-keeps : (w : W) (bytes : Bytes) → Q w → Q (Connection.write_all env w bytes).0
  write_all-keeps w [] q = q
  write_all-keeps w (b ∷ bytes) q = kept.write w (b ∷ bytes) q

  put_frame-IsOutside :
      (d : Connection W) (frame : Frame) (x : W × Bool)
      → is_greeting_answer frame.cmd_id ≡ true
      → Q x.0
      → IsOutside Q d
      → IsOutside Q (Connection.put_frame env d frame x).0
  put_frame-IsOutside d frame (w, true) answers q o = record {
    world = q;
    frames = (answers, o.frames);
  }
  put_frame-IsOutside d frame (w, false) answers q o = record {
    world = q;
    frames = (answers, o.frames);
  }

  put_packed-IsOutside :
      (d : Connection W) (frame : Frame) (x : Result PackError Bytes)
      → is_greeting_answer frame.cmd_id ≡ true
      → IsOutside Q d
      → IsOutside Q (Connection.put_packed env d frame x).0
  put_packed-IsOutside d frame (err e) answers o = o
  put_packed-IsOutside d frame (ok bytes) answers o =
      put_frame-IsOutside d frame (Connection.write_all env d.state.0 bytes) answers
        (write_all-keeps d.state.0 bytes o.world) o

  send_frame-IsOutside :
      (d : Connection W) (payload : Bytes) (cmd : CmdId) (key_id : ℕ) (key : Option Bytes)
      (is_ack : Bool)
      → is_greeting_answer cmd ≡ true
      → IsOutside Q d
      → IsOutside Q (send_frame env d payload cmd key_id key is_ack).0
  unfolding send_frame
  send_frame-IsOutside d payload cmd key_id key is_ack answers o =
      let seq = u64 (d.write_seq + 1) in
      let counted : Connection W = record d { write_seq = seq } in
      let frame : Frame = record {
        payload = payload;
        cmd_id = cmd;
        key_id = key_id;
        session_key = key;
        sequence = seq;
        is_ack = is_ack;
      } in
      put_packed-IsOutside counted frame (pack env.gcm payload cmd key_id key seq is_ack) answers
        (record { world = o.world; frames = o.frames })

  -- Only an answer to a greeting goes to a device that is outside.
  answers_outside :
      (d : Connection W) (cmd : CmdId)
      → MaySend d cmd
      → d.state.1.authenticated ≡ false
      → is_greeting_answer cmd ≡ true
  answers_outside d cmd (inl inside) out = absurd (cc)
  answers_outside d cmd (inr answers) out = answers

  Reach-IsOutside :
      {w : W} {d : Connection W} {n : ℕ}
      → Q w
      → Reach env (open_connection w) n d
      → d.state.1.authenticated ≡ false
      → IsOutside Q d
  Reach-IsOutside q here out = record { world = q; frames = tt }
  Reach-IsOutside q (move key r m) out =
      let quiet = Move-Quiet env Q kept m in
      let before = Reach-IsOutside q r (quiet.stays_out out) in
      record { world = quiet.keeps out before.world; frames = before.frames }
  Reach-IsOutside q (send {d} payload cmd key_id key is_ack lt r may) out =
      let same = send_frame-session env d payload cmd key_id key is_ack in
      let out' = ap (λ s. s.authenticated) (sym same) ∙ out in
      send_frame-IsOutside d payload cmd key_id key is_ack (answers_outside d cmd may out')
        (Reach-IsOutside q r out')

-- Until a device is let in, whatever it sends, it gets answers to its handshakes, its proofs and its
-- registrations alone, and of the core it reaches only AuthenticateDevice and RegisterDevice: a
-- property of the world that those two, the socket, the clock and the key generator keep holds when
-- the connection is over, if it held before and the device was not let in. So no heartbeat, no
-- report, no status of a command and no pull of commands has reached the core.
pub serve-IsOutside :
    {W E : Type 0} (env : Env W E) (Q : W → Type 0) (fuel : ℕ) (w : W) (reader : Bytes)
    (final : Connection W)
    → KeptOutside env Q
    → Q w
    → Connection.serve env fuel (open_connection w) reader ≡ some final
    → final.state.1.authenticated ≡ false
    → IsOutside Q final
serve-IsOutside env Q fuel w reader final kept q served out =
    Reach-IsOutside env Q kept q (serve-Reach env fuel (open_connection w) final reader served) out
