-- ===== src/Downlink/Queue/Fifo.antt =====
-- The queue of one device over a run of operations: first in, first out, and when it overflows the
-- newest messages stay.
use goster_io_t.Common.{ℕ, zero, suc, ◌-◌, ◌≤◌, ◌≡◌, refl, ap, sym, ◌∙◌, arith}
use goster_io_t.Common.{true, Option, none, some, List, [], ◌∷◌, ◌++◌, append-nil}
use goster_io_t.Common.{append_assoc, length, take, drop, last, length-append, last-append_last}
use goster_io_t.Common.{
  if◌then◌else◌, le→leb, lt→leb, lt→ltb, drop-append_le, ltb, Bool-cases, inl, inr,
}
use native.Mathlib.Decide.{dec_lt}
use goster_io_t.Downlink.Queue.Bounds.{Fits, IsBounded, enqueue-IsBounded}
use goster_io_t.Common.Text.{Text, str_eq_iff}
use goster_io_t.Common.Int.{ℤ, pos, negsuc, is_positive, pos_part}
use goster_io_t.Downlink.Queue.{Message, CommandQueue, queue_of, is_full, enqueue, dequeue}
use goster_io_t.Downlink.Queue.Laws.{
  kept, queue_of-enqueue, capacity-enqueue, dequeue-nil, dequeue-cons, queue_of-dequeue_self,
}

-- One enqueue after the other, for one device.
unfoldable pub enqueue_all : CommandQueue → Text → List Message → CommandQueue
enqueue_all m uuid [] = m
enqueue_all m uuid (message ∷ rest) = enqueue_all (enqueue m uuid message).0 uuid rest

-- The loop of `PullCommands`: at most `n` times the next message, until there is none.
abbrev continue :
    (CommandQueue → CommandQueue × List Message)
    → CommandQueue × Option Message
    → CommandQueue × List Message
continue next (m, none) = (m, [])
continue next (m, some message) = let (m', rest) = next m in (m', message ∷ rest)

unfoldable pub pull : ℕ → CommandQueue → Text → CommandQueue × List Message
pull zero m uuid = (m, [])
pull (suc n) m uuid = continue (λ m'. pull n m' uuid) (dequeue m uuid)

-- What a device's queue keeps of the messages that it has been given.
abbrev pub newest : ℤ → List Message → List Message
newest capacity l = if is_positive capacity then last (pos_part capacity) l else l

kept-push :
    (capacity : ℤ) (queue : List Message) (message : Message)
    → (is_positive capacity ≡ true → length queue ≤ pos_part capacity)
    → kept capacity queue ++ (message ∷ []) ≡ newest capacity (queue ++ (message ∷ []))
unfolding is_full
kept-push (negsuc n) queue message h = refl
kept-push (pos zero) queue message h = refl
kept-push (pos (suc n)) queue message h = elim (dec_lt (length queue) (suc n)) [
  | yes below ↦
      let none_over : length (queue ++ (message ∷ [])) - suc n ≡ 0 =
        omega (arith, length-append queue (message ∷ [])) in
      rw (lt→ltb 0 (suc n) (omega arith), lt→leb (suc n) (length queue) below, none_over)
  | no at_bound ↦
      let full : suc n ≡ length queue = omega (arith, h (lt→ltb 0 (suc n) (omega arith))) in
      let one_over : length (queue ++ (message ∷ [])) - suc n ≡ 1 =
        omega (arith, length-append queue (message ∷ [])) in
      rw (
        lt→ltb 0 (suc n) (omega arith),
        le→leb (suc n) (length queue) (omega arith),
        one_over,
        drop-append_le 1 queue (message ∷ []) (omega arith),
      )
]

self :
    (m : CommandQueue) (uuid : Text) (message : Message)
    → queue_of (enqueue m uuid message).0 uuid ≡ kept m.capacity (queue_of m uuid) ++ (message ∷ [])
self m uuid message = ground (arith, queue_of-enqueue m uuid uuid message, str_eq_iff uuid uuid)

newest-append_newest :
    (capacity : ℤ) (xs ys : List Message)
    → newest capacity (newest capacity xs ++ ys) ≡ newest capacity (xs ++ ys)
newest-append_newest (negsuc n) xs ys = refl
newest-append_newest (pos n) xs ys = ground (arith, last-append_last n xs ys)

newest-Fits :
    (capacity : ℤ) (queue : List Message) → Fits capacity queue → newest capacity queue ≡ queue
newest-Fits (negsuc n) queue h = refl
newest-Fits (pos n) queue h = elim (Bool-cases (ltb 0 n)) [
  | inl p ↦ let all_fit : length queue - n ≡ 0 = omega (arith, h p) in rw (p, all_fit)
  | inr p ↦ rw p
]

-- After any number of enqueues for a device its queue holds the newest of the old messages and the
-- new ones in the order in which they came, as many as the capacity allows; a capacity that is not
-- positive keeps them all.
pub queue_of-enqueue_all :
    (m : CommandQueue) (uuid : Text) (messages : List Message)
    → IsBounded m
    → queue_of (enqueue_all m uuid messages) uuid ≡ newest m.capacity (queue_of m uuid ++ messages)
unfolding enqueue_all
queue_of-enqueue_all m uuid [] b =
    rw append-nil (sym (newest-Fits m.capacity (queue_of m uuid) (b.fits uuid)))
queue_of-enqueue_all m uuid (message ∷ rest) b =
    let m' = (enqueue m uuid message).0 in
    let q = queue_of m uuid in
    queue_of-enqueue_all m' uuid rest (enqueue-IsBounded b uuid message)
    ∙ rw (
      capacity-enqueue m uuid message,
      self m uuid message,
      kept-push m.capacity q message (b.fits uuid),
      newest-append_newest m.capacity (q ++ (message ∷ [])) rest,
      append_assoc q (message ∷ []) rest,
    )

pull_queue :
    (n : ℕ) (m : CommandQueue) (uuid : Text) (queue : List Message)
    → queue_of m uuid ≡ queue
    → ((pull n m uuid).1 ≡ take n queue) × (queue_of (pull n m uuid).0 uuid ≡ drop n queue)
unfolding pull
pull_queue zero m uuid queue e = (refl, e)
pull_queue (suc n) m uuid [] e = rw (dequeue-nil m uuid e) (refl, e)
pull_queue (suc n) m uuid (message ∷ rest) e =
    let m' = (dequeue m uuid).0 in
    let (got, left) = pull_queue n m' uuid rest (queue_of-dequeue_self m uuid ∙ ap (drop 1) e) in
    rw (dequeue-cons m uuid message rest e) (ap (λ l. message ∷ l) got, left)

-- Pulling `n` messages for a device returns the oldest `n` of its queue in order, or all of them
-- if there are fewer, and leaves the others in the queue.
pub pull-take :
    (n : ℕ) (m : CommandQueue) (uuid : Text)
    → ((pull n m uuid).1 ≡ take n (queue_of m uuid))
      × (queue_of (pull n m uuid).0 uuid ≡ drop n (queue_of m uuid))
pull-take n m uuid = pull_queue n m uuid (queue_of m uuid) refl
