-- ===== src/Downlink/Queue.antt =====
-- message_queue.go: one bounded queue of messages for each device, in memory. Each method holds the
-- mutex from its first line to its end, so an operation is one step.
pub mod Laws
pub mod Bounds
pub mod Fifo
use goster_io_t.Common.{ℕ, ◌-◌, Bool, true, false, ◌&&◌, Option, none, some, List, [], ◌∷◌, ◌++◌}
use goster_io_t.Common.{length, take, drop, leb, is_empty, if◌then◌else◌}
use goster_io_t.Common.Result.{Result, ok, err}
use goster_io_t.Common.Word.{Bytes}
use goster_io_t.Common.Text.{Text}
use goster_io_t.Common.Int.{ℤ, is_positive, pos_part}
use goster_io_t.Common.Assoc.{Assoc, lookup, insert, delete}

-- inter.DownlinkMessage
pub record Message : Type 0 where
  pub command_id : ℤ
  pub cmd_id : ℕ
  pub payload : Bytes

pub record CommandQueue : Type 0 where
  pub queues : Assoc (List Message)
  pub capacity : ℤ

-- ErrDownlinkQueueFull
pub data QueueError : Type 0 where
  queue_full : QueueError

unfoldable pub new_queue : ℤ → CommandQueue
new_queue cap_ = record { queues = []; capacity = cap_ }

abbrev or_nil : Option (List Message) → List Message
or_nil none = []
or_nil (some queue) = queue

-- `m.queues[uuid]`, nil where the key is missing
unfoldable pub queue_of : CommandQueue → Text → List Message
queue_of m uuid = or_nil (lookup uuid m.queues)

-- `m.capacity > 0 && len(queue) >= m.capacity`
unfoldable pub is_full : ℤ → List Message → Bool
is_full capacity queue = is_positive capacity && leb (pos_part capacity) (length queue)

abbrev store : CommandQueue → Text → List Message → CommandQueue
store m uuid queue = record m { queues = insert uuid queue m.queues }

unfoldable pub enqueue : CommandQueue → Text → Message → CommandQueue × Result QueueError (Unit {0})
enqueue m uuid message =
    let queue = queue_of m uuid in
    if is_full m.capacity queue
    then (store m uuid (drop 1 queue ++ (message ∷ [])), ok tt)
    else (store m uuid (queue ++ (message ∷ [])), ok tt)

-- `queue[:len(queue)-1]` where the queue is full
unfoldable pub make_room : ℤ → List Message → List Message
make_room capacity queue = if is_full capacity queue then take (length queue - 1) queue else queue

unfoldable pub requeue : CommandQueue → Text → Message → CommandQueue × Result QueueError (Unit {0})
unfolding make_room
requeue m uuid message =
    let queue = make_room m.capacity (queue_of m uuid) in
    if is_full m.capacity queue
    then (m, err queue_full)
    else (store m uuid (message ∷ queue), ok tt)

take_first : CommandQueue → Text → List Message → CommandQueue × Option Message
take_first m uuid [] = (m, none)
take_first m uuid (message ∷ []) = (record m { queues = delete uuid m.queues }, some message)
take_first m uuid (message ∷ next ∷ rest) = (store m uuid (next ∷ rest), some message)

-- The error result of Dequeue is nil on every path.
unfoldable pub dequeue : CommandQueue → Text → CommandQueue × Option Message
unfolding take_first
dequeue m uuid = take_first m uuid (queue_of m uuid)

unfoldable pub queue_is_empty : CommandQueue → Text → Bool
queue_is_empty m uuid = is_empty (queue_of m uuid)
