-- ===== src/Downlink/Queue/Bounds.antt =====
-- No queue outgrows a positive capacity, and a requeue therefore always finds room.
use goster_io_t.Common.{
  ℕ, zero, suc, ap, sym, ◌∙◌, Bool-cases, inl, inr, if-true, if-false, take, ◌-◌, ◌≤◌, ◌≡◌, refl,
  arith, Bool, true, false, List, [], ◌∷◌, ◌++◌,
}
use goster_io_t.Common.{length, drop, length-append, length-take, length-drop}
use goster_io_t.Common.{if◌then◌else◌}
use goster_io_t.Common.Result.{ok}
use goster_io_t.Common.Text.{Text, str_eq}
use goster_io_t.Common.Int.{ℤ, pos, negsuc, is_positive, pos_part}
use goster_io_t.Downlink.Queue.{
  Message, CommandQueue, queue_of, is_full, enqueue, make_room, requeue, dequeue,
}
use goster_io_t.Downlink.Queue.Laws.{
  kept, queue_of-enqueue, queue_of-requeue, queue_of-dequeue, capacity-enqueue, capacity-requeue,
  capacity-dequeue,
}

-- A list that a queue of this capacity may hold.
abbrev pub Fits : ℤ → List Message → Type 0
Fits capacity queue = is_positive capacity ≡ true → length queue ≤ pos_part capacity

pub record IsBounded (m : CommandQueue) : Type 0 where
  pub fits : (uuid : Text) → Fits m.capacity (queue_of m uuid)

Fits-push :
    (capacity : ℤ) (queue : List Message) (message : Message)
    → Fits capacity queue
    → Fits capacity (kept capacity queue ++ (message ∷ []))
unfolding is_full
Fits-push capacity queue message h p = ground (
  arith,
  h p,
  length-append (drop 1 queue) (message ∷ []),
  length-append queue (message ∷ []),
  length-drop 1 queue,
)

Fits-drop :
    (capacity : ℤ) (queue : List Message) → Fits capacity queue → Fits capacity (drop 1 queue)
Fits-drop capacity queue h p = ground (arith, h p, length-drop 1 queue)

-- What of a queue goes on behind a message that is put in front: all of it, less what is over the
-- capacity then at the back.
abbrev pub behind : ℤ → List Message → List Message
behind (pos (suc n)) queue = take n queue
behind (pos zero) queue = queue
behind (negsuc n) queue = queue

take_whole : (n : ℕ) (l : List Message) → length l ≤ n → take n l ≡ l
take_whole zero [] h = refl
take_whole (suc n) [] h = refl
take_whole zero (x ∷ l) h = absurd (omega arith)
take_whole (suc n) (x ∷ l) h = ap (λ rest. x ∷ rest) (take_whole n l (omega arith))

pub make_room-behind :
    (capacity : ℤ) (queue : List Message)
    → Fits capacity queue
    → make_room capacity queue ≡ behind capacity queue
unfolding make_room is_full
make_room-behind (negsuc n) queue h = refl
make_room-behind (pos zero) queue h = refl
make_room-behind (pos (suc n)) queue h = elim (Bool-cases (is_full (pos (suc n)) queue)) [
  | inl full ↦
      let exact : length queue - 1 ≡ n = ground (arith, h, full) in
      if-true _ _ full ∙ ap (λ k. take k queue) exact
  | inr room ↦
      let fits : length queue ≤ n = ground (arith, room) in
      if-false _ _ room ∙ sym (take_whole n queue fits)
]

-- Room for one more is made in a queue that keeps the bound.
pub make_room_lem :
    (capacity : ℤ) (queue : List Message)
    → Fits capacity queue
    → is_full capacity (make_room capacity queue) ≡ false
unfolding make_room is_full
make_room_lem (negsuc n) queue h = refl
make_room_lem (pos n) queue h = ground (arith, h, length-take (length queue - 1) queue)

Fits-make_room :
    (capacity : ℤ) (queue : List Message) (message : Message)
    → Fits capacity queue
    → Fits capacity (message ∷ make_room capacity queue)
unfolding make_room is_full
Fits-make_room capacity queue message h p =
    ground (arith, h p, length-take (length queue - 1) queue)

Fits-if :
    (capacity : ℤ) (t : Bool) (xs ys : List Message)
    → Fits capacity xs
    → Fits capacity ys
    → Fits capacity (if t then xs else ys)
Fits-if capacity true xs ys hx hy = hx
Fits-if capacity false xs ys hx hy = hy

module _ {m : CommandQueue} (b : IsBounded m) (uuid : Text) where
  -- Where the queues keep the bound, a requeue is not refused.
  pub requeue_room : (message : Message) → (requeue m uuid message).1 ≡ ok tt
  unfolding requeue
  requeue_room message = rw (make_room_lem m.capacity (queue_of m uuid) (b.fits uuid))

  -- An enqueue keeps every queue within a positive capacity, where all are before it.
  pub enqueue-IsBounded : (message : Message) → IsBounded (enqueue m uuid message).0
  enqueue-IsBounded message = record {
    fits = λ j.
        rw (capacity-enqueue m uuid message, queue_of-enqueue m uuid j message)
          (Fits-if m.capacity (str_eq uuid j) _ _ (Fits-push m.capacity _ message (b.fits uuid))
            (b.fits j));
  }

  -- A requeue keeps every queue within a positive capacity, where all are before it.
  pub requeue-IsBounded : (message : Message) → IsBounded (requeue m uuid message).0
  requeue-IsBounded message =
      let room = make_room_lem m.capacity (queue_of m uuid) (b.fits uuid) in
      record {
        fits = λ j.
            rw (capacity-requeue m uuid message, queue_of-requeue m uuid j message room)
              (Fits-if m.capacity (str_eq uuid j) _ _
                (Fits-make_room m.capacity _ message (b.fits uuid)) (b.fits j));
      }

  pub dequeue-IsBounded : IsBounded (dequeue m uuid).0
  dequeue-IsBounded = record {
    fits = λ j.
        rw (capacity-dequeue m uuid, queue_of-dequeue m uuid j)
          (Fits-if m.capacity (str_eq uuid j) _ _ (Fits-drop m.capacity _ (b.fits uuid))
            (b.fits j));
  }
