-- ===== src/Downlink/Queue/Laws.antt =====
-- What the operations do to the queue of each device, and the bound that they keep.
use goster_io_t.Common.{◌≡◌, refl, arith}
use goster_io_t.Common.{false, none, some, List, [], ◌∷◌, ◌++◌}
use goster_io_t.Common.{drop}
use goster_io_t.Common.{if◌then◌else◌}
use goster_io_t.Common.Text.{Text, str_eq, str_eq_iff}
use goster_io_t.Common.Int.{ℤ}
use goster_io_t.Common.Assoc.{lookup-insert, lookup-delete}
use goster_io_t.Downlink.Queue.{
  Message, CommandQueue, queue_of, is_full, enqueue, make_room, requeue, take_first, dequeue,
}

-- What a push leaves of a queue: all of it, or all but its oldest message where it is full.
abbrev pub kept : ℤ → List Message → List Message
kept capacity queue = if is_full capacity queue then drop 1 queue else queue

module _ (m : CommandQueue) (uuid j : Text) where
  -- An enqueue appends to its own device's queue, which drops its oldest message when it is full,
  -- and leaves every other device's queue alone.
  pub queue_of-enqueue :
      (message : Message)
      → queue_of (enqueue m uuid message).0 j ≡ (
          if str_eq uuid j
          then kept m.capacity (queue_of m uuid) ++ (message ∷ [])
          else queue_of m j)
  unfolding enqueue queue_of
  queue_of-enqueue message = ground (
    arith,
    lookup-insert uuid j (drop 1 (queue_of m uuid) ++ (message ∷ [])) m.queues,
    lookup-insert uuid j (queue_of m uuid ++ (message ∷ [])) m.queues,
  )

  -- A requeue puts the message first; a full queue drops its newest message for it.
  pub queue_of-requeue :
      (message : Message)
      → is_full m.capacity (make_room m.capacity (queue_of m uuid)) ≡ false
      → queue_of (requeue m uuid message).0 j
        ≡ (if str_eq uuid j then message ∷ make_room m.capacity (queue_of m uuid) else queue_of m j)
  unfolding requeue queue_of
  queue_of-requeue message room =
      ground
        (arith, lookup-insert uuid j (message ∷ make_room m.capacity (queue_of m uuid)) m.queues)

  queue_of-take_first :
      (queue : List Message)
      → queue_of m uuid ≡ queue
      → queue_of (take_first m uuid queue).0 j
        ≡ (if str_eq uuid j then drop 1 queue else queue_of m j)
  unfolding take_first queue_of
  queue_of-take_first [] e = ground (arith, e, str_eq_iff uuid j)
  queue_of-take_first (x ∷ []) e = ground (arith, lookup-delete uuid j m.queues)
  queue_of-take_first (x ∷ y ∷ rest) e = ground (arith, lookup-insert uuid j (y ∷ rest) m.queues)

  -- A dequeue takes the oldest message of its own device's queue, and touches no other.
  pub queue_of-dequeue :
      queue_of (dequeue m uuid).0 j
      ≡ (if str_eq uuid j then drop 1 (queue_of m uuid) else queue_of m j)
  unfolding dequeue
  queue_of-dequeue = queue_of-take_first (queue_of m uuid) refl

module _ (m : CommandQueue) (uuid : Text) where
  pub capacity-enqueue : (message : Message) → (enqueue m uuid message).0.capacity ≡ m.capacity
  unfolding enqueue
  capacity-enqueue message = ground arith

  pub capacity-requeue : (message : Message) → (requeue m uuid message).0.capacity ≡ m.capacity
  unfolding requeue
  capacity-requeue message = ground arith

  capacity-take_first : (queue : List Message) → (take_first m uuid queue).0.capacity ≡ m.capacity
  unfolding take_first
  capacity-take_first [] = refl
  capacity-take_first (x ∷ []) = refl
  capacity-take_first (x ∷ y ∷ rest) = refl

  pub capacity-dequeue : (dequeue m uuid).0.capacity ≡ m.capacity
  unfolding dequeue
  capacity-dequeue = capacity-take_first (queue_of m uuid)

  pub dequeue-nil : queue_of m uuid ≡ [] → dequeue m uuid ≡ (m, none)
  unfolding dequeue take_first
  dequeue-nil e = rw e

  pub dequeue-cons :
      (message : Message) (rest : List Message)
      → queue_of m uuid ≡ message ∷ rest
      → dequeue m uuid ≡ ((dequeue m uuid).0, some message)
  unfolding dequeue take_first
  dequeue-cons message [] e = rw e
  dequeue-cons message (next ∷ rest) e = rw e

  -- A device's own queue loses its oldest message.
  pub queue_of-dequeue_self : queue_of (dequeue m uuid).0 uuid ≡ drop 1 (queue_of m uuid)
  queue_of-dequeue_self = ground (arith, queue_of-dequeue m uuid uuid, str_eq_iff uuid uuid)
