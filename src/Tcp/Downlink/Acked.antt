-- ===== src/Tcp/Downlink/Acked.antt =====
-- A command that was sent, and the acknowledgements that come for it.
use goster_io_t.Common.{
  ℕ, ◌≡◌, ◌≢◌, refl, sym, ap, ◌∙◌, Bool, true, false, not, ◌||◌, none, some, if-false,
}
use mathlib.Core.Path.{subst}
use goster_io_t.Common.Int.{is_positive}
use goster_io_t.Adapter.Types.{AdapterCommand}
use goster_io_t.Wire.Types.{CmdId, Packet}
use goster_io_t.Ingress.Messages.{UpdateRequest, status_acked}
use goster_io_t.Tcp.Types.{Env, Session}
use goster_io_t.Tcp.Commands.{ack_request, resolve_downlink_cmd}
use goster_io_t.Tcp.Session.{ingress_context, no_inflight}
use goster_io_t.Tcp.Downlink.{handle_downlink_ack, is_untracked, mark_downlink_sent, update_status}
use goster_io_t.Tcp.Downlink.Laws.{handle_downlink_ack-AckOutcome}
use goster_io_t.Tcp.Downlink.Tracking.{state_after}

-- The acknowledgement of the command that waits in `sent` led to `acked`: the core was told ACKED for
-- the command, the session waits no more, and no further acknowledgement changes anything.
pub record AckedOnce {W E : Type 0} (env : Env W E) (sent : W × Session) (msg : AdapterCommand)
    (packet : Packet) (acked : W × Session) : Type 0 where
  pub request : UpdateRequest
  pub number : request.command_id ≡ msg.command_id
  pub status : request.status ≡ status_acked
  pub told :
      (let idle = record sent.1 { inflight = none; inflight_seq = 0 } in
        acked
        ≡ state_after
            ((env.core.update_command_status sent.0
              (ingress_context env (some packet) idle)
              request).0)
            idle)
  pub once : (again : Packet) → handle_downlink_ack env acked again ≡ acked

module _ {W E : Type 0} (env : Env W E) (msg : AdapterCommand) (cmd : CmdId) (seq : ℕ)
    (known : resolve_downlink_cmd env.library msg ≡ some cmd) where
  abbrev pub AckedBy : W × Session → Packet → Packet → Type 0
  AckedBy sent early packet =
      (handle_downlink_ack env sent early ≡ sent)
      × AckedOnce env sent msg packet (handle_downlink_ack env sent packet)

  module _ (early packet : Packet) (apart : early.sequence ≢ seq) (command : packet.cmd_id ≡ cmd)
      (number : packet.sequence ≡ seq) where
    waiting-AckedBy :
        (w : W) (s : Session)
        → s.authenticated ≡ true
        → AckedBy (w, record s { inflight = some msg; inflight_seq = seq }) early packet
    unfolding ack_request
    waiting-AckedBy w s let_in =
        let sent : W × Session = (w, record s { inflight = some msg; inflight_seq = seq }) in
        let (early_told, early_command, ignored) =
          handle_downlink_ack-AckOutcome env sent early let_in in
        let (told, other_command, other) = handle_downlink_ack-AckOutcome env sent packet let_in in
        let acked = told (known ∙ ap some (sym command)) (sym number) in
        (
          ignored (λ e. apart (sym e)),
          record {
            request = ack_request s.uuid status_acked msg packet.cmd_id;
            number = refl;
            status = refl;
            told = acked;
            once = λ again.
                subst (λ (st : W × Session). handle_downlink_ack env st again ≡ st) (sym acked)
                  (handle_downlink_ack-AckOutcome env
                    (update_status env (w, no_inflight sent.1) (some packet)
                      (ack_request s.uuid status_acked msg packet.cmd_id))
                    again let_in);
          },
        )

  inside_false : (a b : Bool) → a ≡ true → b ≡ true → (not a || not b) ≡ false
  inside_false true true h k = refl
  inside_false true false h k = absurd (cc)
  inside_false false b h k = absurd (cc)

  -- A command that was sent waits until the first acknowledgement of its frame. One with another
  -- sequence number, which may come before it, changes nothing; at one with the frame's number and
  -- command the core is told ACKED for the command, and from then on no acknowledgement changes
  -- anything. The device is let in, the command's number is positive, and it goes out under the
  -- downlink command of its operation.
  pub handle_downlink_ack-mark_downlink_sent :
      (w : W) (s : Session) (early packet : Packet)
      → s.authenticated ≡ true
      → is_positive msg.command_id ≡ true
      → early.sequence ≢ seq
      → packet.cmd_id ≡ cmd
      → packet.sequence ≡ seq
      → AckedBy (mark_downlink_sent env (w, s) msg cmd seq) early packet
  unfolding mark_downlink_sent
  handle_downlink_ack-mark_downlink_sent w s early packet let_in counted apart command number =
      let tracked =
        if-false _ (is_untracked env s msg)
          (inside_false s.authenticated (is_positive msg.command_id) let_in counted) in
      subst (λ st. AckedBy st early packet) (sym tracked)
        (waiting-AckedBy early packet apart command number _ s let_in)
