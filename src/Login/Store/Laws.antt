-- ===== src/Login/Store/Laws.antt =====
-- What the store keeps of the failures of a key.
use goster_io_t.Common.{ℕ, ◌≤◌, ◌≡◌, refl, ap, ◌∙◌, arith, Bool, true, false}
use goster_io_t.Common.{List, [], ◌∷◌, ◌++◌, ltb, is_empty, if◌then◌else◌}
use goster_io_t.Common.{Bool-cases, inl, inr, ◌&&◌, ◌==◌}
use goster_io_t.Common.Text.{Text, str_eq}
use goster_io_t.Common.Assoc.{insert, delete, lookup-insert, lookup-delete}
use goster_io_t.Login.Store.{
  Snapshot, no_attempts, Attempts, state_of, recent, prune, write_back, pruned_state, failed,
  record_failure,
}

state_of-insert :
    (s : Attempts) (key j : Text) (state : Snapshot)
    → state_of (insert key state s) j ≡ (if str_eq key j then state else state_of s j)
unfolding state_of
state_of-insert s key j state = ground (arith, lookup-insert key j state s)

pub state_of-delete :
    (s : Attempts) (key j : Text)
    → state_of (delete key s) j ≡ (if str_eq key j then no_attempts else state_of s j)
unfolding state_of
state_of-delete s key j = ground (arith, lookup-delete key j s)

blank :
    (failures : List ℕ) (locked : ℕ)
    → (is_empty failures && locked == 0) ≡ true
    → no_attempts ≡ record { failures = failures; locked_until = locked }
blank [] locked h =
    let zero_lock : 0 ≡ locked = ground arith in
    ap (λ l. record { failures = []; locked_until = l }) zero_lock
blank (x ∷ xs) locked h = cc

state_of-write_back :
    (s : Attempts) (key j : Text) (state : Snapshot)
    → state_of (write_back s key state).0 j ≡ (if str_eq key j then state else state_of s j)
unfolding write_back
state_of-write_back s key j state =
    elim (Bool-cases (is_empty state.failures && state.locked_until == 0)) [
      | inl empty ↦ rw empty (
          state_of-delete s key j
          ∙ ap (λ st. if str_eq key j then st else state_of s j) (blank _ _ empty))
      | inr full ↦ rw full (state_of-insert s key j state)
    ]

write_back_state :
    (s : Attempts) (key : Text) (state : Snapshot) → (write_back s key state).1 ≡ state
unfolding write_back
write_back_state s key state =
    elim (Bool-cases (is_empty state.failures && state.locked_until == 0)) [
      | inl empty ↦ rw empty (blank _ _ empty)
      | inr full ↦ rw full refl
    ]

module _ {now now' : ℕ} (w : ℕ) (order : now ≤ now') where
  pub recent-recent : (l : List ℕ) → recent now' w (recent now w l) ≡ recent now' w l
  unfolding recent
  recent-recent [] = refl
  recent-recent (ts ∷ l) = ground (arith, recent-recent l)

  relock :
      (x : ℕ)
      → (let y = if ltb now x then x else 0 in if ltb now' y then y else 0)
        ≡ (if ltb now' x then x else 0)
  relock x = ground arith

  pub prune-prune : (st : Snapshot) → prune now' w (prune now w st) ≡ prune now' w st
  unfolding prune
  prune-prune st = rw (recent-recent st.failures) (
      ap (λ l. record { failures = recent now' w st.failures; locked_until = l })
        (relock st.locked_until))

pub recent-append :
    (now w : ℕ) (xs ys : List ℕ) → recent now w (xs ++ ys) ≡ recent now w xs ++ recent now w ys
unfolding recent
recent-append now w [] ys = refl
recent-append now w (x ∷ xs) ys = ground (arith, recent-append now w xs ys)

if-if :
    {A : Type 0} (b : Bool) (x y z : A)
    → (if b then x else if b then y else z) ≡ (if b then x else z)
if-if true x y z = refl
if-if false x y z = refl

pub state_of-pruned_state :
    (s : Attempts) (key j : Text) (now w : ℕ)
    → state_of (pruned_state s key now w).0 j
      ≡ (if str_eq key j then prune now w (state_of s key) else state_of s j)
unfolding pruned_state
state_of-pruned_state s key j now w = state_of-write_back s key j (prune now w (state_of s key))

pub pruned_state_answer :
    (s : Attempts) (key : Text) (now w : ℕ)
    → (pruned_state s key now w).1 ≡ prune now w (state_of s key)
unfolding pruned_state
pruned_state_answer s key now w = write_back_state s key (prune now w (state_of s key))

-- What a failure leaves of each key's state.
pub state_of-record_failure :
    (s : Attempts) (key j : Text) (now w lockout m : ℕ)
    → state_of (record_failure s key now w lockout m) j
      ≡ (if str_eq key j then failed now lockout m (prune now w (state_of s key)) else state_of s j)
unfolding record_failure pruned_state
state_of-record_failure s key j now w lockout m =
    let state = prune now w (state_of s key) in
    let (s', kept) = write_back s key state in
    state_of-insert s' key j _
    ∙ rw (write_back_state s key state, state_of-write_back s key j state)
        (if-if (str_eq key j) _ _ _)
