-- ===== src/Tcp/Connection/Rounds.antt =====
-- Every round of the loop, and the whole loop, goes by the steps of Reach.
use goster_io_t.Common.{
  ℕ, suc, ◌≡◌, inl, inr, arith, Bool, true, false, Option, none, some, Bool-cases, ◌==◌, length,
  refl,
}
use goster_io_t.Common.Word.{Bytes}
use goster_io_t.Wire.Types.{
  CmdId, Packet, cmd_handshake_resp, cmd_auth_ack, cmd_key_exchange_downlink,
}
use goster_io_t.Tcp.Types.{Env, Session}
use goster_io_t.Tcp.Session.{Reply}
use goster_io_t.Tcp.Connection
use goster_io_t.Tcp.Connection.{
  Connection, Delivery, Frame, Next, going, closing, delivered, not_packed, not_written, send_frame,
}
use goster_io_t.Tcp.Connection.Reach.{Move, Reach, move, send, Reach-le}

-- The connection behind a round.
abbrev pub reached : {W : Type 0} → Next W → Connection W
reached (going c) = c
reached (closing c) = c

module _ {W E : Type 0} (env : Env W E) {c : Connection W} where
  pub or_close-Reach :
      {n : ℕ} (x : Connection W × Delivery)
      → Reach env c n x.0
      → Reach env c n (reached (Connection.or_close env x))
  or_close-Reach (d, delivered) r = r
  or_close-Reach (d, not_packed e) r = r
  or_close-Reach (d, not_written) r = r

  negotiated-Reach :
      {n : ℕ} {d : Connection W} (packet : Packet) (x : W × Option (Bytes × Bytes))
      → Connection.negotiate_ephemeral_secret env d.state.0 packet.payload ≡ x
      → Reach env c n d
      → Reach env c (suc n) (reached (Connection.after_negotiation env d packet x))
  negotiated-Reach {d} packet (w, none) e r =
      Reach-le env (omega arith) (move d.session_key r (Move.negotiates packet.payload e))
  negotiated-Reach {d} packet (w, some (secret, server)) e r =
      let met = move d.session_key r (Move.negotiates packet.payload e) in
      let greeted = move (some secret) met (Move.meets packet.payload server refl) in
      or_close-Reach _ (send _ cmd_handshake_resp 0 none true (omega arith) greeted (inr refl))

  pub on_handshake-Reach :
      {n : ℕ} {d : Connection W} (packet : Packet)
      → Reach env c n d
      → Reach env c (suc n) (reached (Connection.on_handshake env d packet))
  unfolding Connection.on_handshake
  on_handshake-Reach {d} packet r = elim (Bool-cases (length packet.payload == 32)) [
    | inl sized ↦ rw sized (negotiated-Reach packet _ refl r)
    | inr other ↦ rw other (Reach-le env (omega arith) r)
  ]

  close_unless-Reach :
      {n : ℕ} (b : Bool) (next : Next W)
      → Reach env c n (reached next)
      → Reach env c n (reached (Connection.close_unless env b next))
  close_unless-Reach true next r = r
  close_unless-Reach false (going d) r = r
  close_unless-Reach false (closing d) r = r

  pub answer-Reach :
      {n : ℕ} {d : Connection W} (x : (W × Session) × Reply)
      → Reach env c n d
      → Move env d.state x.0
      → Reach env c (suc n) (reached (Connection.answer env d x))
  answer-Reach {d} (st, reply) r m = close_unless-Reach (reply.status == 0) _ (
      or_close-Reach _ (
        send _ cmd_auth_ack 1 d.session_key true (omega arith) (move d.session_key r m) (inr refl)))

  pub acknowledge-Reach :
      {n : ℕ} {d : Connection W} (cmd : CmdId) (x : W × Bool)
      → d.state.1.authenticated ≡ true
      → Reach env c n d
      → Move env d.state (x.0, d.state.1)
      → Reach env c (suc n) (reached (Connection.acknowledge env d cmd x))
  acknowledge-Reach {d} cmd (w, handled) may r m =
      or_close-Reach _
        (send _ cmd 1 d.session_key true (omega arith) (move d.session_key r m) (inl may))

  switch_key-Reach :
      {n : ℕ} (secret : Bytes) (next : Next W)
      → Reach env c n (reached next)
      → Reach env c n (reached (Connection.switch_key env secret next))
  switch_key-Reach secret (going d) r = move (some secret) r (Move.stays d.state)
  switch_key-Reach secret (closing d) r = r

  pub rekeyed-Reach :
      {n : ℕ} {d : Connection W} (peer : Bytes) (x : W × Option (Bytes × Bytes))
      → d.state.1.authenticated ≡ true
      → Connection.negotiate_ephemeral_secret env d.state.0 peer ≡ x
      → Reach env c n d
      → Reach env c (suc n) (reached (Connection.after_rekey env d x))
  rekeyed-Reach {d} peer (w, none) may e r =
      Reach-le env (omega arith) (move d.session_key r (Move.negotiates peer e))
  rekeyed-Reach {d} peer (w, some (secret, server)) may e r =
      let agreed : Connection W = record d { state = (w, d.state.1) } in
      let out = send_frame env agreed server cmd_key_exchange_downlink 1 d.session_key true in
      switch_key-Reach secret (Connection.or_close env out) (
        or_close-Reach out (
          send server cmd_key_exchange_downlink 1 d.session_key true (omega arith)
            (move d.session_key r (Move.negotiates peer e)) (inl may)))
