-- ===== src/Tcp/Connection/Settled.antt =====
-- The command that waits on a connection, through every round and at its end.
use goster_io_t.Common.{ℕ, ◌≡◌, sym, ap, some}
use mathlib.Core.Path.{subst}
use goster_io_t.Common.Word.{Bytes}
use goster_io_t.Tcp.Types.{Env, Session}
use goster_io_t.Tcp.Session.{Reply, record_handshake}
use goster_io_t.Tcp.Session.Cases.{authenticate-cases, register-cases}
use goster_io_t.Tcp.Downlink.Laws.{IsTracked}
use goster_io_t.Tcp.Downlink.Tracking.{
  SettledBy, bind_device-IsTracked, fail_downlink-IsTracked, handle_downlink_ack-IsTracked,
  mark_downlink_sent-IsTracked, requeue_downlink-IsTracked, requeue_inflight-IsTracked,
  requeue_inflight-SettledBy,
}
use goster_io_t.Tcp.Connection
use goster_io_t.Tcp.Connection.{Connection, open_connection}
use goster_io_t.Tcp.Connection.Reach.{Move, Reach, here, move, send}
use goster_io_t.Tcp.Connection.Deliveries.{send_frame-session}
use goster_io_t.Tcp.Connection.Loop.{Returns, serve-Ended}

module _ {W E : Type 0} (env : Env W E) where
  Move-IsTracked :
      {st st' : W × Session}
      → Move env st st'
      → IsTracked env.library st.1
      → IsTracked env.library st'.1
  unfolding record_handshake
  Move-IsTracked (Move.negotiates peer e) t = t
  Move-IsTracked (Move.meets client server e) t = t
  Move-IsTracked {st} (Move.authenticates packet key e) t =
      subst (λ (x : (W × Session) × Reply). IsTracked env.library x.0.1) e
        (authenticate-cases env (IsTracked env.library) st.1 t
          (λ u v i. bind_device-IsTracked env.library st.1 u v i t) st.0 packet key)
  Move-IsTracked {st} (Move.registers packet e) t =
      subst (λ (x : (W × Session) × Reply). IsTracked env.library x.0.1) e
        (register-cases env (IsTracked env.library) st.1 t
          (λ u v i. bind_device-IsTracked env.library st.1 u v i t) st.0 packet)
  Move-IsTracked (Move.reports packet handle e) t = t
  Move-IsTracked (Move.acknowledges st packet) t = handle_downlink_ack-IsTracked env st packet t
  Move-IsTracked (Move.pops e) t = t
  Move-IsTracked (Move.gives_up st msg error_text) t =
      fail_downlink-IsTracked env st msg error_text t
  Move-IsTracked (Move.puts_back st msg error_text) t =
      requeue_downlink-IsTracked env st msg error_text t
  Move-IsTracked (Move.marks st msg cmd seq known) t =
      mark_downlink_sent-IsTracked env st msg cmd seq known t
  Move-IsTracked (Move.stays st) t = t
  Move-IsTracked (Move.ends st) t = requeue_inflight-IsTracked env st t

  -- Wherever a connection comes to, at most one command waits, and it is tracked: the device was let
  -- in, the core knows the command by a positive number, and it went out under a downlink command.
  pub Reach-IsTracked :
      {w : W} {d : Connection W} {n : ℕ}
      → Reach env (open_connection w) n d
      → IsTracked env.library d.state.1
  Reach-IsTracked here = tt
  Reach-IsTracked (move key r m) = Move-IsTracked m (Reach-IsTracked r)
  Reach-IsTracked (send {d} payload cmd key_id key is_ack lt r may) =
      subst (IsTracked env.library) (sym (send_frame-session env d payload cmd key_id key is_ack))
        (Reach-IsTracked r)

-- The connection as the loop's return left it, and how it was settled from there.
pub record Settled {W E : Type 0} (env : Env W E) (w : W) (reader : Bytes) (final : Connection W)
    : Type 0 where
  pub last : Connection W
  pub returned : Returns env (open_connection w) reader last
  pub tracked : IsTracked env.library last.state.1
  pub settled : SettledBy env last.state last.state.1.inflight final.state

-- However a connection ends, by an error, a refusal or the end of its input, the command that waits
-- for its acknowledgement where the loop returns is not forgotten: at the end the session waits for
-- nothing, and the core has been told REQUEUED for that very command, with a positive number. Where
-- none waits the end changes nothing.
pub serve-Settled :
    {W E : Type 0} (env : Env W E) (fuel : ℕ) (w : W) (reader : Bytes) (final : Connection W)
    → Connection.serve env fuel (open_connection w) reader ≡ some final
    → Settled env w reader final
unfolding Connection.finish
serve-Settled env fuel w reader final served =
    let (d, r, finished, returned) = serve-Ended env fuel (open_connection w) final reader served in
    let t = Reach-IsTracked env r in
    let end = requeue_inflight-SettledBy env d.state t in
    record {
      last = d;
      returned = returned;
      tracked = t;
      settled =
          subst (SettledBy env d.state d.state.1.inflight)
            (ap (λ (c : Connection _). c.state) finished) end;
    }
