-- ===== src/Downlink/Service/Laws.antt =====
-- A command that goes back to its device's queue: what the service leaves in the queue and in the
-- table.
use goster_io_t.Common.{ℕ, suc, ◌≡◌, refl, ap, none, some, ◌∷◌, true, arith, lt→ltb, eq→==, ◌∙◌}
use goster_io_t.Common.Result.{Result, ok, err}
use goster_io_t.Common.Int.{pos, is_positive}
use goster_io_t.Common.Text.{Text, text, str_eq, str_eq_iff}
use goster_io_t.Downlink.Errors.{CommandError, command_not_found}
use goster_io_t.Downlink.Queue
use goster_io_t.Downlink.Queue.{CommandQueue, QueueError, Message, queue_of, make_room}
use goster_io_t.Downlink.Queue.Laws.{queue_of-requeue}
use goster_io_t.Downlink.Queue.Bounds.{
  behind, IsBounded, requeue_room, make_room_lem, make_room-behind,
}
use goster_io_t.Downlink.Commands.{
  CommandRow, CommandTable, update_device_command_status, status_queued, is_valid_status,
}
use goster_io_t.Downlink.Commands.Laws.{find_row, update_known, update_unknown, moved}
use goster_io_t.Downlink.Service.{requeue_command, requeued_answer}
use goster_io_t.Downlink.Service.Memory.{as_command_error, memory_queue, table_repository}

valid : is_valid_status status_queued ≡ true
unfolding is_valid_status text str_eq
valid = refl

module _ (resolve : Text → Result CommandError Text) (now : ℕ) (t : CommandTable) (q : CommandQueue)
    (uuid : Text) (message : Message) (n : ℕ) (key : message.command_id ≡ pos (suc n))
    (up : t.up ≡ true) (bounded : IsBounded q) where
  abbrev requeued : (CommandTable × CommandQueue) × Result CommandError (Unit {0})
  requeued = requeue_command (table_repository resolve now) memory_queue (t, q) uuid message

  abbrev updated : CommandTable × Result CommandError (Unit {0})
  updated = update_device_command_status now t (pos (suc n)) status_queued (text "")

  after_queue :
      (w : CommandQueue × Result QueueError (Unit {0}))
      → w.1 ≡ ok tt
      → requeued_answer (table_repository resolve now) memory_queue t (as_command_error w) message
        ≡ ((updated.0, w.0), updated.1)
  unfolding requeued_answer
  after_queue (w, ok u) h = simp (key)
  after_queue (w, err e) h = cc

  positive : is_positive message.command_id ≡ true
  positive = ap is_positive key ∙ lt→ltb 0 (suc n) (omega arith)

  answer : requeued ≡ ((updated.0, (Queue.requeue q uuid message).0), updated.1)
  unfolding requeue_command
  answer =
      rw positive (after_queue (Queue.requeue q uuid message) (requeue_room bounded uuid message))

  queued_first :
      queue_of (Queue.requeue q uuid message).0 uuid ≡ message ∷ behind q.capacity (queue_of q uuid)
  queued_first =
      let here = make_room_lem q.capacity (queue_of q uuid) (bounded.fits uuid) in
      let first : queue_of (Queue.requeue q uuid message).0 uuid
          ≡ message ∷ make_room q.capacity (queue_of q uuid) =
        ground (arith, queue_of-requeue q uuid uuid message here, str_eq_iff uuid uuid) in
      first
      ∙ ap (λ rest. message ∷ rest)
          (make_room-behind q.capacity (queue_of q uuid) (bounded.fits uuid))

  known :
      (r : CommandRow)
      → find_row (suc n) t.rows ≡ some r
      → (updated.1 ≡ ok tt)
        × (find_row (suc n) updated.0.rows ≡ some (moved status_queued (text "") now r))
  known r e =
      let (answered, rows) = update_known now t n status_queued (text "") valid up r e in
      (answered, rows (suc n) ∙ rw (eq→== (suc n) (suc n) refl))

  -- The command of a positive key that a row of the table has goes to the head of its device's
  -- queue, for which a full queue gives up its newest message, its row is queued again, and the
  -- call succeeds. The queue keeps its bound before the call and the database answers.
  pub requeue_known :
      (r : CommandRow)
      → find_row (suc n) t.rows ≡ some r
      → (requeued.1 ≡ ok tt)
        × (queue_of requeued.0.1 uuid ≡ message ∷ behind q.capacity (queue_of q uuid))
        × (find_row (suc n) requeued.0.0.rows ≡ some (moved status_queued (text "") now r))
  requeue_known r e = let (answered, row) = known r e in rw answer (answered, queued_first, row)

  -- For a key that no row has the call returns ErrCommandNotFound, and the message is at the head
  -- of the device's queue all the same. The queue keeps its bound before the call and the database
  -- answers.
  pub requeue_unknown :
      find_row (suc n) t.rows ≡ none
      → (requeued.1 ≡ err command_not_found)
        × (queue_of requeued.0.1 uuid ≡ message ∷ behind q.capacity (queue_of q uuid))
  requeue_unknown e =
      rw answer ((update_unknown now t n status_queued (text "") valid up e).0, queued_first)
