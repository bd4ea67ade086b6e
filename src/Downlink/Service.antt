-- ===== src/Downlink/Service.antt =====
-- downlink_command_service.go, over the interfaces inter.DeviceCommandRepository and
-- inter.DeviceCommandQueue.
pub mod Memory
pub mod Laws
use goster_io_t.Common.{ℕ, Bool, true, false, Option, none, some, ◌∷◌, if◌then◌else◌}
use goster_io_t.Common.Result.{Result, ok, err}
use goster_io_t.Common.Word.{Bytes}
use goster_io_t.Common.Int.{ℤ, is_positive}
use goster_io_t.Common.Text.{Text, text, trim_space}
use goster_io_t.Downlink.Errors.{CommandError, error_text}
use goster_io_t.Downlink.Queue.{Message}
use goster_io_t.Downlink.Commands.{status_queued, status_sent, status_acked, status_failed}

pub record CommandRepository (S : Type 0) : Type 0 where
  pub create : S → Text → Text → ℕ → Text → Bytes → S × Result CommandError ℤ
  pub update_status : S → ℤ → Text → Text → S × Result CommandError (Unit {0})

pub record DeviceCommandQueue (Q : Type 0) : Type 0 where
  pub enqueue : Q → Text → Message → Q × Result CommandError (Unit {0})
  pub requeue : Q → Text → Message → Q × Result CommandError (Unit {0})
  pub dequeue : Q → Text → Q × Result CommandError (Option Message)

module _ {S Q : Type 0} (repo : CommandRepository S) (queue : DeviceCommandQueue Q) where
  -- `if commandID <= 0 { return nil }`, then the update.
  mark : S → ℤ → Text → Text → S × Result CommandError (Unit {0})
  mark s id status error =
      if is_positive id then repo.update_status s id status error else (s, ok tt)

  unfoldable pub mark_sent : S → ℤ → S × Result CommandError (Unit {0})
  unfolding mark
  mark_sent s id = mark s id status_sent (text "")

  unfoldable pub mark_acked : S → ℤ → S × Result CommandError (Unit {0})
  unfolding mark
  mark_acked s id = mark s id status_acked (text "")

  unfoldable pub mark_failed : S → ℤ → Text → S × Result CommandError (Unit {0})
  unfolding mark
  mark_failed s id error = mark s id status_failed (trim_space error)

  -- After the queue's answer: a refused message marks its command as failed.
  queued_answer :
      S → Q × Result CommandError (Unit {0}) → Message → (S × Q) × Result CommandError Message
  queued_answer s (q, ok u) message = ((s, q), ok message)
  queued_answer s (q, err e) message =
      (((mark_failed s message.command_id (error_text e)).0, q), err e)

  created_answer :
      Q → S × Result CommandError ℤ → Text → ℕ → Bytes → (S × Q) × Result CommandError Message
  unfolding queued_answer
  created_answer q (s, err e) uuid cmd_id payload = ((s, q), err e)
  created_answer q (s, ok id) uuid cmd_id payload =
      let message : Message = record { command_id = id; cmd_id = cmd_id; payload = payload } in
      queued_answer s (queue.enqueue q uuid message) message

  unfoldable pub enqueue_command :
      S × Q → Text → Text → ℕ → Text → Bytes → (S × Q) × Result CommandError Message
  unfolding created_answer
  enqueue_command (s, q) tenant_id uuid cmd_id command payload =
      created_answer q (repo.create s tenant_id uuid cmd_id command payload) uuid cmd_id payload

  unfoldable pub pop_downlink : S × Q → Text → (S × Q) × Result CommandError (Option Message)
  pop_downlink (s, q) uuid = let (q', r) = queue.dequeue q uuid in ((s, q'), r)

  requeued_answer :
      S → Q × Result CommandError (Unit {0}) → Message → (S × Q) × Result CommandError (Unit {0})
  requeued_answer s (q, err e) message =
      (((mark_failed s message.command_id (error_text e)).0, q), err e)
  requeued_answer s (q, ok u) message =
      let (s', r) = repo.update_status s message.command_id status_queued (text "") in ((s', q), r)

  unfoldable pub requeue_command : S × Q → Text → Message → (S × Q) × Result CommandError (Unit {0})
  unfolding requeued_answer
  requeue_command (s, q) uuid message =
      if is_positive message.command_id
      then requeued_answer s (queue.requeue q uuid message) message
      else ((s, q), ok tt)
