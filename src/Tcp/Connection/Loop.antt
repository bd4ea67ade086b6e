-- ===== src/Tcp/Connection/Loop.antt =====
-- Every round of the loop, and so the whole connection, goes by the steps of Reach; and the loop
-- ends.
use goster_io_t.Common.{
  ℕ, zero, suc, ◌+◌, ◌*◌, ◌≤◌, ◌<◌, ◌≡◌, ◌⊎◌, inl, inr, arith, Bool, true, false, Option, some,
  ◌==◌, ◌||◌, length, refl,
}
use goster_io_t.Common.Result.{Result, ok, err}
use goster_io_t.Common.Word.{Bytes}
use goster_io_t.Wire.Types.{
  CmdId, Packet, cmd_handshake_init, cmd_auth_verify, cmd_device_register, cmd_error_report,
  cmd_metrics_report, cmd_log_report, cmd_event_report, cmd_heartbeat, cmd_key_exchange_uplink,
  is_downlink_command,
}
use goster_io_t.Wire.Codec.{UnpackError, unpack}
use mathlib.Core.Path.{subst}
use goster_io_t.Common.{some-injective}
use goster_io_t.Wire.Codec.Sound.{unpack-shortens}
use goster_io_t.Tcp.Types.{Env}
use goster_io_t.Tcp.Session.{authenticate, register}
use goster_io_t.Tcp.Downlink.{requeue_inflight}
use goster_io_t.Tcp.Reports.{handle_event, handle_heartbeat, handle_log, handle_metrics}
use goster_io_t.Tcp.Connection
use goster_io_t.Tcp.Connection.{
  is_greeting, Connection, Delivery, Frame, Next, going, closing, delivered, not_packed,
  not_written, send_frame,
}
use goster_io_t.Tcp.Connection.Reach.{
  metrics, log, event, heartbeat, failure, Move, Reach, here, move, Reach-trans, Reach-le,
}
use goster_io_t.Tcp.Connection.Rounds.{
  reached, on_handshake-Reach, answer-Reach, acknowledge-Reach, rekeyed-Reach,
}
use goster_io_t.Tcp.Connection.Deliveries.{if-Reach, deliver_downlinks-Reach}

must_be_in :
    (b : Bool) (cmd : CmdId)
    → (cmd == cmd_handshake_init) ≡ false
    → (cmd == cmd_auth_verify) ≡ false
    → (cmd == cmd_device_register) ≡ false
    → (b ≡ true) ⊎ (is_greeting cmd ≡ true)
    → b ≡ true
unfolding is_greeting
must_be_in b cmd n1 n2 n3 (inl may) = may
must_be_in b cmd n1 n2 n3 (inr greets) = absurd (ground arith)

either : (a b : Bool) → (a || b) ≡ true → (a ≡ true) ⊎ (b ≡ true)
either true b h = inl refl
either false b h = inr h

module _ {W E : Type 0} (env : Env W E) {c : Connection W} where
  then_downlinks-Reach :
      (n : ℕ) (next : Next W)
      → Reach env c n (reached next)
      → Reach env c (env.downlink_max_batch + n) (reached (Connection.then_downlinks env next))
  then_downlinks-Reach n (closing d) r = Reach-le env (omega arith) r
  then_downlinks-Reach n (going d) r =
      if-Reach env d.state.1.authenticated _ _
        (λ may. deliver_downlinks-Reach env env.downlink_max_batch n d (r, may))
        (λ closed. Reach-le env (omega arith) r)

  -- The commands of the switch that are not greetings come from a device that was let in.
  dispatch-Reach :
      {n : ℕ} {d : Connection W} (packet : Packet)
      → (d.state.1.authenticated ≡ true) ⊎ (is_greeting packet.cmd_id ≡ true)
      → Reach env c n d
      → Reach env c (suc n) (reached (Connection.dispatch env d packet))
  unfolding Connection.dispatch
  dispatch-Reach {d} packet let_in r =
      if-Reach env (packet.cmd_id == cmd_handshake_init) _ _ (λ e. on_handshake-Reach env packet r)
        λ n1.
          if-Reach env (packet.cmd_id == cmd_auth_verify) _ _
            (λ e.
              answer-Reach env (authenticate env d.state packet d.session_key) r
                (Move.authenticates packet d.session_key refl))
            λ n2.
              if-Reach env (packet.cmd_id == cmd_device_register) _ _
                (λ e. answer-Reach env (register env d.state packet) r (Move.registers packet refl))
                λ n3.
                  let may = must_be_in d.state.1.authenticated packet.cmd_id n1 n2 n3 let_in in
                  if-Reach env (packet.cmd_id == cmd_metrics_report) _ _
                    (λ e.
                      acknowledge-Reach env cmd_metrics_report (handle_metrics env d.state packet)
                        may r (Move.reports packet metrics refl))
                    λ n4.
                      if-Reach env (packet.cmd_id == cmd_log_report) _ _
                        (λ e.
                          acknowledge-Reach env cmd_log_report (handle_log env d.state packet) may r
                            (Move.reports packet log refl))
                        λ n5.
                          if-Reach env (packet.cmd_id == cmd_event_report) _ _
                            (λ e.
                              acknowledge-Reach env cmd_event_report
                                (handle_event env d.state packet) may r
                                (Move.reports packet event refl))
                            λ n6.
                              if-Reach env (packet.cmd_id == cmd_heartbeat) _ _
                                (λ e.
                                  acknowledge-Reach env cmd_heartbeat
                                    (handle_heartbeat env d.state packet) may r
                                    (Move.reports packet heartbeat refl))
                                λ n7.
                                  if-Reach env (packet.cmd_id == cmd_key_exchange_uplink) _ _
                                    (λ e. rekeyed-Reach env packet.payload _ may refl r)
                                    λ n8.
                                      if-Reach env (is_downlink_command packet.cmd_id) _ _
                                        (λ e.
                                          if-Reach env packet.is_ack _ _
                                            (λ a. Reach-le env (omega arith) (
                                              move d.session_key r
                                                (Move.acknowledges d.state packet)))
                                            (λ a. Reach-le env (omega arith) r))
                                        λ n9.
                                          if-Reach env (packet.cmd_id == cmd_error_report) _ _
                                            (λ e. Reach-le env (omega arith) (
                                              move d.session_key r
                                                (Move.reports packet failure refl)))
                                            (λ n10. Reach-le env (omega arith) r)

  on_packet-Reach :
      {n : ℕ} {d : Connection W} (packet : Packet)
      → Reach env c n d
      → Reach env c (env.downlink_max_batch + suc n) (reached (Connection.on_packet env d packet))
  unfolding Connection.on_packet
  on_packet-Reach {n} {d} packet r =
      if-Reach env (d.state.1.authenticated || is_greeting packet.cmd_id) _ _
        (λ let_in.
          then_downlinks-Reach (suc n) (Connection.dispatch env d packet)
            (dispatch-Reach packet (either _ _ let_in) r))
        (λ refused. Reach-le env (omega arith) r)

-- The frames that a connection sends for the bytes it reads: at most the acknowledgement and a full
-- batch of commands for every frame that arrives.
abbrev pub frame_budget : {W E : Type 0} → Env W E → Bytes → ℕ
frame_budget env reader = (env.downlink_max_batch + 1) * length reader

budget_step : (k a b : ℕ) → a + 48 ≤ b → k * a + k ≤ k * b
budget_step k a b h = grind arith

module _ {W E : Type 0} (env : Env W E) where
  -- How the loop comes to return from a connection and the bytes still to come: `last` is the
  -- connection as the `return` leaves it, before the deferred calls.
  pub data Returns : Connection W → Bytes → Connection W → Type 0 where
    breaks :
        {c : Connection W} {reader : Bytes} {e : UnpackError}
        → unpack env.gcm reader c.session_key ≡ err e
        → Returns c reader c
    closes :
        {c last : Connection W} {reader rest : Bytes} {packet : Packet}
        → unpack env.gcm reader c.session_key ≡ ok (packet, rest)
        → Connection.on_packet env c packet ≡ closing last
        → Returns c reader last
    goes_on :
        {c d last : Connection W} {reader rest : Bytes} {packet : Packet}
        → unpack env.gcm reader c.session_key ≡ ok (packet, rest)
        → Connection.on_packet env c packet ≡ going d
        → Returns d rest last
        → Returns c reader last

  finished-Reach :
      {n : ℕ} {c d : Connection W} → Reach env c n d → Reach env c n (Connection.finish env d)
  unfolding Connection.finish
  finished-Reach {d} r = move d.session_key r (Move.ends d.state)

  -- A connection ends where the loop returns, with the deferred call run.
  abbrev pub Ended : Connection W → Bytes → Connection W → Type 0
  Ended c reader final =
      (d : Connection W) × Reach env c (frame_budget env reader) d
      × (Connection.finish env d ≡ final)
      × Returns c reader d

  module _ (final : Connection W) (reader : Bytes)
      (serve_rest : Connection W → Bytes → Option (Connection W))
      (later-Ended : (d : Connection W) (rest : Bytes)
        → serve_rest d rest ≡ some final
        → Ended d rest final) where
    follow-Ended :
        (c : Connection W) (packet : Packet) (rest : Bytes) (next : Next W)
        → unpack env.gcm reader c.session_key ≡ ok (packet, rest)
        → Connection.on_packet env c packet ≡ next
        → length rest + 48 ≤ length reader
        → Reach env c (env.downlink_max_batch + 1) (reached next)
        → Connection.follow env (λ later. serve_rest later rest) next ≡ some final
        → Ended c reader final
    follow-Ended c packet rest (closing d) unpacked done shorter r h = (
      d,
      Reach-le env (omega (arith, budget_step (env.downlink_max_batch + 1) _ _ shorter)) r,
      some-injective h,
      closes unpacked done,
    )
    follow-Ended c packet rest (going d) unpacked done shorter r h =
        let (e, later, finished, returned) = later-Ended d rest h in
        (
          e,
          Reach-le env (omega (arith, budget_step (env.downlink_max_batch + 1) _ _ shorter))
              (Reach-trans env r later),
          finished,
          goes_on unpacked done returned,
        )

    after_unpack-Ended :
        (c : Connection W) (x : Result UnpackError (Packet × Bytes))
        → unpack env.gcm reader c.session_key ≡ x
        → Connection.after_unpack env serve_rest c x ≡ some final
        → Ended c reader final
    after_unpack-Ended c (err e) unpacked h = (c, here, some-injective h, breaks unpacked)
    after_unpack-Ended c (ok (packet, rest)) unpacked h =
        follow-Ended c packet rest (Connection.on_packet env c packet) unpacked refl
          (unpack-shortens env.gcm reader c.session_key packet rest unpacked)
          (on_packet-Reach env packet here) h

  -- The loop returns with at most the budget's frames sent.
  pub serve-Ended :
      (fuel : ℕ) (c final : Connection W) (reader : Bytes)
      → Connection.serve env fuel c reader ≡ some final
      → Ended c reader final
  unfolding Connection.serve
  serve-Ended zero c final reader h = cc
  serve-Ended (suc fuel) c final reader h =
      after_unpack-Ended final reader (λ later rest. Connection.serve env fuel later rest)
        (λ d rest. serve-Ended fuel d final rest) c (unpack env.gcm reader c.session_key) refl h

  -- A connection that ends has gone by the steps of Reach.
  pub serve-Reach :
      (fuel : ℕ) (c final : Connection W) (reader : Bytes)
      → Connection.serve env fuel c reader ≡ some final
      → Reach env c (frame_budget env reader) final
  serve-Reach fuel c final reader h =
      let (d, r, finished, returned) = serve-Ended fuel c final reader h in
      subst (λ end. Reach env c (frame_budget env reader) end) finished (finished-Reach r)

  -- The loop returned, and the deferred RequeueInflight ran on what it left.
  abbrev Closed : Connection W → Bytes → Option (Connection W) → Type 0
  Closed c reader result =
      (last : Connection W) × Returns c reader last
      × (result ≡ some (record last { state = requeue_inflight env last.state }))

  module _ (c : Connection W) (reader : Bytes) where
    follow_total :
        (serve_rest : Connection W → Option (Connection W)) (packet : Packet) (rest : Bytes)
        (next : Next W)
        → unpack env.gcm reader c.session_key ≡ ok (packet, rest)
        → Connection.on_packet env c packet ≡ next
        → ((d : Connection W) → Closed d rest (serve_rest d))
        → Closed c reader (Connection.follow env serve_rest next)
    unfolding Connection.finish
    follow_total serve_rest packet rest (closing d) unpacked done rest_total =
        (d, closes unpacked done, refl)
    follow_total serve_rest packet rest (going d) unpacked done rest_total =
        let (last, returned, closed) = rest_total d in
        (last, goes_on unpacked done returned, closed)

    after_unpack_total :
        (serve_rest : Connection W → Bytes → Option (Connection W))
        (x : Result UnpackError (Packet × Bytes))
        → unpack env.gcm reader c.session_key ≡ x
        → ((d : Connection W) (rest : Bytes)
            → length rest < length reader
            → Closed d rest (serve_rest d rest))
        → Closed c reader (Connection.after_unpack env serve_rest c x)
    unfolding Connection.finish
    after_unpack_total serve_rest (err e) unpacked rest_total = (c, breaks unpacked, refl)
    after_unpack_total serve_rest (ok (packet, rest)) unpacked rest_total =
        let shorter = unpack-shortens env.gcm reader c.session_key packet rest unpacked in
        follow_total (λ later. serve_rest later rest) packet rest
          (Connection.on_packet env c packet) unpacked refl
          (λ d. rest_total d rest (omega (arith, shorter)))

-- The loop of a connection ends: with more fuel than bytes that arrive, whatever they are, it returns
-- by the rules of Returns, at a frame that is not unpacked or a round that closes the connection, and
-- then the deferred RequeueInflight has run on the connection as that return left it.
pub serve_total :
    {W E : Type 0} (env : Env W E) (fuel : ℕ) (c : Connection W) (reader : Bytes)
    → length reader < fuel
    → (last : Connection W) × Returns env c reader last
      × (Connection.serve env fuel c reader
          ≡ some (record last { state = requeue_inflight env last.state }))
unfolding Connection.serve
serve_total env zero c reader h = absurd (omega arith)
serve_total env (suc fuel) c reader h =
    after_unpack_total env c reader (λ later rest. Connection.serve env fuel later rest) _ refl
      (λ d rest shorter. serve_total env fuel d rest (omega arith))
