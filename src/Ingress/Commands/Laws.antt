-- ===== src/Ingress/Commands/Laws.antt =====
-- What the ingress may change of the commands.
use goster_io_t.Common.{if-true}
use goster_io_t.Common.{ℕ, suc, ◌≡◌, refl, ap, ◌∙◌, sym, true, some, ◌∷◌}
use goster_io_t.Common.{Bool-cases, inl, inr}
use goster_io_t.Common.Result.{Result, ok, err}
use goster_io_t.Common.Int.{pos, is_positive}
use goster_io_t.Common.Text.{Text, text}
use goster_io_t.Downlink.Errors.{CommandError}
use goster_io_t.Downlink.Queue.{CommandQueue, Message, queue_of}
use goster_io_t.Downlink.Queue.Bounds.{behind, IsBounded}
use goster_io_t.Downlink.Commands
use goster_io_t.Downlink.Commands.{CommandRow, CommandTable}
use goster_io_t.Downlink.Commands.Laws.{find_row, moved}
use goster_io_t.Downlink.Service.{CommandRepository, DeviceCommandQueue, requeue_command}
use goster_io_t.Downlink.Service.Memory.{memory_queue, table_repository}
use goster_io_t.Downlink.Service.Laws.{requeue_known}
use goster_io_t.Ingress.Messages.{
  UpdateRequest, CommandStatus, status_unspecified, status_queued, status_sent, status_acked,
  status_failed, status_expired, status_requeued, status_other,
}
use goster_io_t.Ingress.Commands.{
  IngressError, invalid_argument, internal_error, marked, send_back, by_status,
  update_command_status, requeue_message,
}

module _ {S Q : Type 0} (repo : CommandRepository S) (queue : DeviceCommandQueue Q) where
  internal_error-valid :
      {X : Type 0} (x : X × Result CommandError (Unit {0}))
      → (internal_error repo queue x).1 ≡ err invalid_argument
      → ⊥
  unfolding internal_error
  internal_error-valid (x, ok u) h = cc
  internal_error-valid (x, err e) h = cc

  internal_error-ok :
      {X : Type 0} (x : X × Result CommandError (Unit {0}))
      → x.1 ≡ ok tt
      → internal_error repo queue x ≡ (x.0, ok tt)
  unfolding internal_error
  internal_error-ok (x, ok u) h = refl
  internal_error-ok (x, err e) h = cc

  send_back-refused :
      (state : S × Q) (r : Result IngressError (Text × Message))
      → (send_back repo queue state r).1 ≡ err invalid_argument
      → (send_back repo queue state r).0 ≡ state
  unfolding send_back
  send_back-refused state (err e) h = refl
  send_back-refused state (ok (uuid, message)) h =
      absurd (internal_error-valid (requeue_command repo queue state uuid message) h)

  by_status-refused :
      (state : S × Q) (req : UpdateRequest) (status : CommandStatus)
      → (by_status repo queue state req status).1 ≡ err invalid_argument
      → (by_status repo queue state req status).0 ≡ state
  unfolding by_status marked
  by_status-refused (s, q) req status_sent h = absurd (internal_error-valid _ h)
  by_status-refused (s, q) req status_acked h = absurd (internal_error-valid _ h)
  by_status-refused (s, q) req status_failed h = absurd (internal_error-valid _ h)
  by_status-refused (s, q) req status_expired h = absurd (internal_error-valid _ h)
  by_status-refused state req status_requeued h = send_back-refused state (requeue_message req) h
  by_status-refused state req status_unspecified h = refl
  by_status-refused state req status_queued h = refl
  by_status-refused state req (status_other n) h = refl

  -- A request that is answered with CodeInvalidArgument has changed neither the table of the
  -- commands nor a queue, whatever repository and queue the service stands on.
  pub update_command_status-refused :
      (state : S × Q) (req : UpdateRequest)
      → (update_command_status repo queue state req).1 ≡ err invalid_argument
      → (update_command_status repo queue state req).0 ≡ state
  unfolding update_command_status
  update_command_status-refused state req h = elim (Bool-cases (is_positive req.command_id)) [
    | inl positive ↦
        rw positive (by_status-refused state req req.status (sym (rw positive refl) ∙ h))
    | inr other ↦ rw other refl
  ]

checked_id :
    (req : UpdateRequest) (x : Text × Message)
    → requeue_message req ≡ ok x
    → is_positive req.command_id ≡ true
unfolding requeue_message
checked_id req x h = elim (Bool-cases (is_positive req.command_id)) [
  | inl positive ↦ positive
  | inr other ↦
      let refused : requeue_message req ≡ err invalid_argument = rw other refl in
      let clash : ◌≡◌ {A = Result IngressError (Text × Message)} (err invalid_argument) (ok x) =
        sym refused ∙ h in
      absurd (cc)
]

-- A request to requeue a command that the table knows, when its checks pass, makes the command's row
-- queued again and its message the first of the device's queue, from which a full queue gives up
-- its newest message; the answer is a success. The queue keeps its bound before the request and the
-- database answers.
pub update_command_status_requeued :
    (resolve : Text → Result CommandError Text) (now : ℕ) (t : CommandTable) (q : CommandQueue)
    (req : UpdateRequest) (uuid : Text) (message : Message) (n : ℕ) (r : CommandRow)
    → req.status ≡ status_requeued
    → requeue_message req ≡ ok (uuid, message)
    → message.command_id ≡ pos (suc n)
    → t.up ≡ true
    → IsBounded q
    → find_row (suc n) t.rows ≡ some r
    → (let u = update_command_status (table_repository resolve now) memory_queue (t, q) req in
        (u.1 ≡ ok tt)
        × (queue_of u.0.1 uuid ≡ message ∷ behind q.capacity (queue_of q uuid))
        × (find_row (suc n) u.0.0.rows ≡ some (moved Commands.status_queued (text "") now r)))
unfolding update_command_status by_status send_back
update_command_status_requeued resolve now t q req uuid message n r asked checked key up bounded
      known =
    let repo = table_repository resolve now in
    let at_status =
      if-true ((t, q), err invalid_argument) (is_positive req.command_id)
        (checked_id req (uuid, message) checked)
      ∙ ap (by_status repo memory_queue (t, q) req) asked
      ∙ ap (send_back repo memory_queue (t, q)) checked in
    let (answered, first, row) =
      requeue_known resolve now t q uuid message n key up bounded r known in
    let whole =
      at_status
      ∙ internal_error-ok repo memory_queue (requeue_command repo memory_queue (t, q) uuid message)
          answered in
    rw whole (refl, first, row)
