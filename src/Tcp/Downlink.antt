-- ===== src/Tcp/Downlink.antt =====
-- The commands of session.go: the one that waits for its acknowledgement, and what the core is told
-- of each.
pub mod Laws
pub mod Access
pub mod Tracking
pub mod Returned
pub mod Acked
use goster_io_t.Common.{
  ℕ, Bool, true, false, ◌&&◌, ◌||◌, not, Option, none, some, List, [], ◌∷◌, ◌==◌, if◌then◌else◌,
}
use goster_io_t.Common.Int.{is_positive}
use goster_io_t.Common.Text.{Text, text}
use goster_io_t.Adapter.Types.{AdapterCommand}
use goster_io_t.Wire.Types.{CmdId, Packet}
use goster_io_t.Ingress.Messages.{
  UpdateRequest, status_sent, status_acked, status_failed, status_requeued,
}
use goster_io_t.Tcp.Types.{
  CanonicalCommand, CoreClient, DownlinkError, Env, Library, Normalizer, Session,
}
use goster_io_t.Tcp.Commands.{ack_request, cmd_or_zero, resolve_downlink_cmd, update_request}
use goster_io_t.Tcp.Session.{
  clear_inflight_by_command_id, has_inflight, ingress_context, no_inflight,
}

module _ {W E : Type 0} (env : Env W E) where
  -- The answer to a status update is only logged.
  abbrev pub update_status : W × Session → Option Packet → UpdateRequest → W × Session
  update_status (w, s) packet request =
      let (w', answered) =
        env.core.update_command_status w (ingress_context env packet s) request in
      (w', s)

  abbrev pub ack_inflight : W × Session → Packet → Option AdapterCommand → W × Session
  ack_inflight (w, s) packet none = (w, s)
  ack_inflight (w, s) packet (some msg) =
      let cmd = cmd_or_zero (resolve_downlink_cmd env.library msg) in
      if not (cmd == packet.cmd_id)
      then (w, s)
      else if not (s.inflight_seq == packet.sequence)
      then (w, s)
      else update_status (w, no_inflight s) (some packet)
          (ack_request s.uuid status_acked msg packet.cmd_id)

  unfoldable pub handle_downlink_ack : W × Session → Packet → W × Session
  handle_downlink_ack (w, s) packet =
      if not s.authenticated then (w, s) else ack_inflight (w, s) packet s.inflight

  abbrev pub first_command : W × Option (List CanonicalCommand) → W × Option AdapterCommand
  first_command (w, none) = (w, none)
  first_command (w, some []) = (w, none)
  first_command (w, some (command ∷ commands)) = (w, env.normalizer.normalize_command command)

  unfoldable pub pop_command : W × Session → W × Option AdapterCommand
  pop_command (w, s) =
      if not s.authenticated || (not env.has_core || (not env.has_normalizer || has_inflight s))
      then (w, none)
      else first_command (env.core.pull_commands w (ingress_context env none s) s.uuid s.identity 1)

  -- `!s.authenticated || msg.CommandID <= 0`
  abbrev pub is_untracked : Session → AdapterCommand → Bool
  is_untracked s msg = not s.authenticated || not (is_positive msg.command_id)

  unfoldable pub mark_downlink_sent : W × Session → AdapterCommand → CmdId → ℕ → W × Session
  mark_downlink_sent (w, s) msg cmd seq =
      if is_untracked s msg
      then (w, s)
      else update_status (w, record s { inflight = some msg; inflight_seq = seq }) none
          (update_request s.uuid status_sent (text "") cmd msg cmd)

  unfoldable pub fail_downlink : W × Session → AdapterCommand → Text → W × Session
  fail_downlink (w, s) msg error_text =
      if is_untracked s msg
      then (w, s)
      else update_status (w, clear_inflight_by_command_id msg.command_id s) none
          (update_request s.uuid status_failed error_text 0 msg 0)

  -- What the core is told of a command that goes back.
  unfoldable pub requeue_request : Session → AdapterCommand → Text → UpdateRequest
  requeue_request s msg error_text =
      update_request s.uuid status_requeued error_text 0 msg
        (cmd_or_zero (resolve_downlink_cmd env.library msg))

  unfoldable pub requeue_downlink : W × Session → AdapterCommand → Text → W × Session
  requeue_downlink (w, s) msg error_text =
      if is_untracked s msg
      then (w, s)
      else update_status (w, clear_inflight_by_command_id msg.command_id s) none
          (requeue_request s msg error_text)

  -- takeInflight, then RequeueDownlink with no error.
  abbrev pub requeue_taken : W × Session → Option AdapterCommand → W × Session
  requeue_taken (w, s) none = (w, s)
  requeue_taken (w, s) (some msg) = requeue_downlink (w, no_inflight s) msg (text "")

  unfoldable pub requeue_inflight : W × Session → W × Session
  requeue_inflight (w, s) = requeue_taken (w, s) s.inflight
