-- ===== src/Tcp/Connection/Deliveries.antt =====
-- The downlinks behind a round go by the steps of Reach.
use goster_io_t.Common.{
  ℕ, zero, suc, ◌+◌, ◌≡◌, inl, arith, Bool, true, false, Option, none, some, refl, ap, ◌∙◌,
  if◌then◌else◌,
}
use goster_io_t.Common.Result.{Result, ok, err}
use goster_io_t.Common.Word.{Bytes}
use goster_io_t.Common.Text.{Text}
use goster_io_t.Adapter.Types.{AdapterCommand}
use goster_io_t.Wire.Types.{CmdId}
use goster_io_t.Wire.Codec.{PackError}
use goster_io_t.Tcp.Types.{Env, pack_failed, unmapped, write_failed}
use goster_io_t.Tcp.Commands.{resolve_downlink_cmd}
use goster_io_t.Tcp.Downlink.{fail_downlink, pop_command}
use goster_io_t.Tcp.Connection
use goster_io_t.Tcp.Downlink.Access.{fail_downlink-authenticated, mark_downlink_sent-authenticated}
use goster_io_t.Tcp.Connection.{
  Connection, Delivery, Frame, Next, going, closing, delivered, not_packed, not_written, send_frame,
}
use goster_io_t.Tcp.Connection.Reach.{Move, Reach, move, send, Reach-le}
use goster_io_t.Tcp.Connection.Rounds.{reached}

module _ {W E : Type 0} (env : Env W E) where
  put_packed-session :
      (d : Connection W) (frame : Frame) (x : Result PackError Bytes)
      → (Connection.put_packed env d frame x).0.state.1 ≡ d.state.1
  put_packed-session d frame (err e) = refl
  put_packed-session d frame (ok bytes) =
      put_frame-session (Connection.write_all env d.state.0 bytes)
    where
      put_frame-session :
          (y : W × Bool) → (Connection.put_frame env d frame y).0.state.1 ≡ d.state.1
      put_frame-session (w, true) = refl
      put_frame-session (w, false) = refl

  -- A frame that goes out does not touch the session.
  pub send_frame-session :
      (d : Connection W) (payload : Bytes) (cmd : CmdId) (key_id : ℕ) (key : Option Bytes)
      (is_ack : Bool)
      → (send_frame env d payload cmd key_id key is_ack).0.state.1 ≡ d.state.1
  unfolding send_frame
  send_frame-session d payload cmd key_id key is_ack = put_packed-session _ _ _

-- A connection with an authenticated device that `c` comes to.
abbrev Serving : {W E : Type 0} (env : Env W E) → Connection W → ℕ → Connection W → Type 0
Serving env c n d = Reach env c n d × (d.state.1.authenticated ≡ true)

module _ {W E : Type 0} (env : Env W E) {c : Connection W} where
  gave_up-Serving :
      {n : ℕ} {d : Connection W} (msg : AdapterCommand) (error_text : Text)
      → Serving env c n d
      → Serving env c n (record d { state = fail_downlink env d.state msg error_text })
  gave_up-Serving {d} msg error_text (r, may) = (
    move d.session_key r (Move.gives_up d.state msg error_text),
    fail_downlink-authenticated env d.state msg error_text ∙ may,
  )

  module _ (k : ℕ) (next : Connection W → Next W)
      (rest : (n : ℕ) (d : Connection W)
        → Serving env c n d
        → Reach env c (k + n) (reached (next d))) where
    after_send-Reach :
        {n : ℕ} (msg : AdapterCommand) (cmd : CmdId) (x : Connection W × Delivery)
        → resolve_downlink_cmd env.library msg ≡ some cmd
        → Serving env c n x.0
        → Reach env c (k + n) (reached (Connection.after_send env next msg cmd x))
    after_send-Reach {n} msg cmd (d, delivered) known (r, may) = rest n _ (
      move d.session_key r (Move.marks d.state msg cmd d.write_seq known),
      mark_downlink_sent-authenticated env d.state msg cmd d.write_seq ∙ may,
    )
    after_send-Reach {n} msg cmd (d, not_packed e) known serving =
        rest n _ (gave_up-Serving msg (env.library.error_text (pack_failed e)) serving)
    after_send-Reach msg cmd (d, not_written) known (r, may) =
        Reach-le env (omega arith)
          (move d.session_key r (Move.puts_back d.state msg (env.library.error_text write_failed)))

    after_resolve-Reach :
        {n : ℕ} {d : Connection W} (msg : AdapterCommand) (o : Option CmdId)
        → resolve_downlink_cmd env.library msg ≡ o
        → Serving env c n d
        → Reach env c (k + suc n) (reached (Connection.after_resolve env next d msg o))
    after_resolve-Reach {n} msg none known serving =
        Reach-le env (omega arith)
          (rest n _ (gave_up-Serving msg (env.library.error_text (unmapped msg.operation)) serving))
    after_resolve-Reach {d} msg (some cmd) known (r, may) =
        after_send-Reach msg cmd (send_frame env d msg.payload cmd 1 d.session_key false) known (
          send msg.payload cmd 1 d.session_key false (omega arith) r (inl may),
          ap (λ s. s.authenticated) (send_frame-session env d msg.payload cmd 1 d.session_key false)
              ∙ may,
        )

    after_pop-Reach :
        {n : ℕ} {d : Connection W} (x : W × Option AdapterCommand)
        → pop_command env d.state ≡ x
        → Serving env c n d
        → Reach env c (k + suc n) (reached (Connection.after_pop env next d x))
    after_pop-Reach {d} (w, none) e (r, may) =
        Reach-le env (omega arith) (move d.session_key r (Move.pops e))
    after_pop-Reach {d} (w, some msg) e (r, may) =
        after_resolve-Reach msg (resolve_downlink_cmd env.library msg) refl
          (move d.session_key r (Move.pops e), may)

  -- Both branches of a test.
  pub if-Reach :
      (b : Bool) (x y : Next W) {n : ℕ}
      → (b ≡ true → Reach env c n (reached x))
      → (b ≡ false → Reach env c n (reached y))
      → Reach env c n (reached (if b then x else y))
  if-Reach true x y holds fails = holds refl
  if-Reach false x y holds fails = fails refl

  pub deliver_downlinks-Reach :
      (k n : ℕ) (d : Connection W)
      → Serving env c n d
      → Reach env c (k + n) (reached (Connection.deliver_downlinks env k d))
  unfolding Connection.deliver_downlinks
  deliver_downlinks-Reach zero n d (r, may) = Reach-le env (omega arith) r
  deliver_downlinks-Reach (suc k) n d serving = Reach-le env (omega arith) (
      after_pop-Reach k (λ later. Connection.deliver_downlinks env k later)
        (deliver_downlinks-Reach k) (pop_command env d.state) refl serving)
