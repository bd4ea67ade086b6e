-- ===== src/Login/Guard/Laws.antt =====
-- The guard over the store, and the guard over the full history of each key's failures.
use mathlib.Core.Path.{subst}
use goster_io_t.Common.{
  ℕ, suc, false, ◌+◌, ◌-◌, ◌≤◌, ◌<◌, ◌≡◌, refl, ap, ◌∙◌, sym, arith, Bool, true,
}
use goster_io_t.Common.{List, [], ◌∷◌, ◌++◌, length, leb, ltb, if◌then◌else◌}
use goster_io_t.Common.{Bool-cases, lt→ltb, inl, inr}
use goster_io_t.Common.Text.{Text, str_eq, str_eq_iff}
use goster_io_t.Common.Assoc.{lookup, delete}
use goster_io_t.Login.Key.{login_attempt_key}
use goster_io_t.Login.Store
use goster_io_t.Login.Store.{
  Snapshot, no_attempts, Attempts, state_of, recent, prune, pruned_state, snapshot, failed,
}
use goster_io_t.Login.Store.Laws.{
  state_of-record_failure, state_of-pruned_state, state_of-delete, pruned_state_answer, prune-prune,
  recent-append, recent-recent,
}
use goster_io_t.Login.Guard.{Policy, allow, allowed, record_failure, reset}

-- A call of the guard: a failed login, a test whether one may go on, a login that succeeds.
pub data Call : Type 0 where
  fail : (username remote_addr : Text) → ℕ → Call
  look : (username remote_addr : Text) → ℕ → Call
  succeed : (username remote_addr : Text) → ℕ → Call

abbrev pub time_of : Call → ℕ
time_of (fail u r now) = now
time_of (look u r now) = now
time_of (succeed u r now) = now

unfoldable pub step : Policy → Attempts → Call → Attempts
step g s (fail u r now) = record_failure g s u r now
step g s (look u r now) = (allow g s u r now).0
step g s (succeed u r now) = reset s u r

unfoldable pub run : Policy → Attempts → List Call → Attempts
run g s [] = s
run g s (c ∷ calls) = run g (step g s c) calls

-- The clock does not go back over the calls, from `t` to `now`.
abbrev pub InOrder : ℕ → List Call → ℕ → Type 0
InOrder t [] now = t ≤ now
InOrder t (c ∷ calls) now = (t ≤ time_of c) × InOrder (time_of c) calls now

-- How many of the times are less than a window ago.
unfoldable pub count_since : ℕ → ℕ → List ℕ → ℕ
count_since now window [] = 0
count_since now window (ts ∷ times) =
    let rest = count_since now window times in if ltb now (ts + window) then suc rest else rest

length-recent : (now w : ℕ) (l : List ℕ) → length (recent now w l) ≡ count_since now w l
unfolding recent count_since
length-recent now w [] = refl
length-recent now w (ts ∷ l) = ground (arith, length-recent now w l)

-- All failures of a key since its last success, and the end of its last lock: a failure locks when
-- it and those within the window before it make max_failures.
unfoldable pub witnessed : Policy → Text → Snapshot → Call → Snapshot
witnessed g key h (fail u r now) =
    if str_eq (login_attempt_key u r) key
    then (let failures = h.failures ++ (now ∷ []) in
        record {
          failures = failures;
          locked_until =
              if leb g.max_failures (count_since now g.window failures)
              then now + g.lockout
              else h.locked_until;
        })
    else h
witnessed g key h (look u r now) = h
witnessed g key h (succeed u r now) = if str_eq (login_attempt_key u r) key then no_attempts else h

unfoldable pub history : Policy → Text → Snapshot → List Call → Snapshot
history g key h [] = h
history g key h (c ∷ calls) = history g key (witnessed g key h c) calls

Snapshot-eq :
    {f f' : List ℕ} {l l' : ℕ}
    → f ≡ f'
    → l ≡ l'
    → ◌≡◌ {A = Snapshot}
        (record { failures = f; locked_until = l })
        (record { failures = f'; locked_until = l' })
Snapshot-eq e e' i = record { failures = e i; locked_until = e' i }

recent-now :
    (now w : ℕ)
    → 0 < w
    → (l : List ℕ) → recent now w (l ++ (now ∷ [])) ≡ recent now w l ++ (now ∷ [])
unfolding recent
recent-now now w positive l =
    rw (recent-append now w l (now ∷ []), lt→ltb now (now + w) (omega arith))

relock :
    {now now' : ℕ}
    → now ≤ now'
    → (b : Bool) (x y : ℕ)
    → (let z = if b then x else if ltb now y then y else 0 in if ltb now' z then z else 0)
      ≡ (let z = if b then x else y in if ltb now' z then z else 0)
relock order b x y = ground arith

module _ (g : Policy) (positive : 0 < g.window) (key : Text) where
  -- From `t` on, the store's state and the history prune to the same.
  abbrev Agree : ℕ → Snapshot → Snapshot → Type 0
  Agree t st h = (now : ℕ) → t ≤ now → prune now g.window st ≡ prune now g.window h

  -- The history with one more failure.
  abbrev with_failure : ℕ → Snapshot → Snapshot
  with_failure now h =
      let failures = h.failures ++ (now ∷ []) in
      record {
        failures = failures;
        locked_until =
            if leb g.max_failures (count_since now g.window failures)
            then now + g.lockout
            else h.locked_until;
      }

  prune-failed :
      (h : Snapshot) (now now' : ℕ)
      → now ≤ now'
      → prune now' g.window (failed now g.lockout g.max_failures (prune now g.window h))
        ≡ prune now' g.window (with_failure now h)
  unfolding failed prune
  prune-failed h now now' order =
      rw
        (
          ← length-recent now g.window (h.failures ++ (now ∷ [])),
          recent-now now g.window positive h.failures,
        )
        (Snapshot-eq
          (recent-append now' g.window (recent now g.window h.failures) (now ∷ [])
            ∙ ap (λ l. l ++ recent now' g.window (now ∷ []))
                (recent-recent g.window order h.failures)
            ∙ sym (recent-append now' g.window h.failures (now ∷ [])))
          (relock order _ (now + g.lockout) h.locked_until))

  Agree-failed :
      (t : ℕ) (st h : Snapshot)
      → Agree t st h
      → (now : ℕ) → t ≤ now
      → Agree now (failed now g.lockout g.max_failures (prune now g.window st)) (with_failure now h)
  Agree-failed t st h agree now order now' order' =
      ap (λ x. prune now' g.window (failed now g.lockout g.max_failures x)) (agree now order)
      ∙ prune-failed h now now' order'

  Agree-step :
      (t : ℕ) (s : Attempts) (h : Snapshot) (c : Call)
      → t ≤ time_of c
      → Agree t (state_of s key) h
      → Agree (time_of c) (state_of (step g s c) key) (witnessed g key h c)
  unfolding step witnessed record_failure allow reset snapshot Store.reset
  Agree-step t s h (fail u r now) order agree now' order' =
      let k = login_attempt_key u r in
      rw (state_of-record_failure s k key now g.window g.lockout g.max_failures)
        (elim (Bool-cases (str_eq k key)) [
          | inl same ↦
              rw (same, (str_eq_iff k key).0 same)
                (Agree-failed t (state_of s key) h agree now order now' order')
          | inr other ↦ rw other (agree now' (omega arith))
        ])
  Agree-step t s h (look u r now) order agree now' order' =
      let k = login_attempt_key u r in
      rw (state_of-pruned_state s k key now g.window) (elim (Bool-cases (str_eq k key)) [
        | inl same ↦
            rw (same, (str_eq_iff k key).0 same, prune-prune g.window order' (state_of s key))
              (agree now' (omega arith))
        | inr other ↦ rw other (agree now' (omega arith))
      ])
  Agree-step t s h (succeed u r now) order agree now' order' =
      let k = login_attempt_key u r in
      rw (state_of-delete s k key) (elim (Bool-cases (str_eq k key)) [
        | inl same ↦ rw same refl
        | inr other ↦ rw other (agree now' (omega arith))
      ])

  Agree-run :
      (t : ℕ) (s : Attempts) (h : Snapshot) (calls : List Call) (now : ℕ)
      → InOrder t calls now
      → Agree t (state_of s key) h
      → prune now g.window (state_of (run g s calls) key)
        ≡ prune now g.window (history g key h calls)
  unfolding run history
  Agree-run t s h [] now order agree = agree now order
  Agree-run t s h (c ∷ calls) now (first, order) agree =
      Agree-run (time_of c) (step g s c) _ calls now order (Agree-step t s h c first agree)

allowed-prune : (now w : ℕ) (h : Snapshot) → allowed now (prune now w h) ≡ allowed now h
unfolding allowed prune
allowed-prune now w h = ground arith

empty_agrees :
    (g : Policy) (key : Text) (n : ℕ)
    → prune n g.window (state_of [] key) ≡ prune n g.window no_attempts
unfolding state_of lookup
empty_agrees g key n = refl

-- The answer at a time, where the last lock of a key ends at `until`: a refusal with the time that is
-- left before then, and leave to go on from then on.
pub data AnswersBy (now until : ℕ) (answer : ℕ × Bool) : Type 0 where
  refuses : now < until → answer.0 ≡ until - now → answer.1 ≡ false → AnswersBy now until answer
  allows : until ≤ now → answer.0 ≡ 0 → answer.1 ≡ true → AnswersBy now until answer

allowed-AnswersBy : (now : ℕ) (h : Snapshot) → AnswersBy now h.locked_until (allowed now h)
unfolding allowed
allowed-AnswersBy now h = elim (Bool-cases (ltb now h.locked_until)) [
  | inl early ↦ rw early (refuses (ground (arith, early)) refl refl)
  | inr late ↦ rw late (allows (ground (arith, late)) refl refl)
]

allow-history :
    (g : Policy)
    → 0 < g.window
    → (username remote_addr : Text) (calls : List Call) (now : ℕ) → InOrder 0 calls now
    → (allow g (run g [] calls) username remote_addr now).1
      ≡ allowed now (history g (login_attempt_key username remote_addr) no_attempts calls)
unfolding allow snapshot
allow-history g positive username remote_addr calls now order =
    let key = login_attempt_key username remote_addr in
    let agree =
      Agree-run g positive key 0 [] no_attempts calls now order (λ n o. empty_agrees g key n) in
    rw (pruned_state_answer (run g [] calls) key now g.window, agree)
      (allowed-prune now g.window (history g key no_attempts calls))

-- After any calls from the empty store, at times that do not go back, the guard refuses a user at an
-- address, with the time that is left, exactly until the end of the last lock of their key: a failure
-- locks the key for the lockout when it and the failures within the window before it, since the last
-- success, make max_failures. The window is positive.
pub allow-run :
    (g : Policy)
    → 0 < g.window
    → (username remote_addr : Text) (calls : List Call) (now : ℕ) → InOrder 0 calls now
    → AnswersBy now
        (history g (login_attempt_key username remote_addr) no_attempts calls).locked_until
        (allow g (run g [] calls) username remote_addr now).1
allow-run g positive username remote_addr calls now order =
    let h = history g (login_attempt_key username remote_addr) no_attempts calls in
    subst (AnswersBy now h.locked_until)
      (sym (allow-history g positive username remote_addr calls now order))
      (allowed-AnswersBy now h)

-- A successful login clears its key: the guard then lets the next attempt go on.
pub allow-reset :
    (g : Policy) (s : Attempts) (username remote_addr : Text) (now : ℕ)
    → (allow g (reset s username remote_addr) username remote_addr now).1 ≡ (0, true)
unfolding allow reset snapshot Store.reset allowed prune recent
allow-reset g s username remote_addr now =
    let k = login_attempt_key username remote_addr in
    rw
      (
        pruned_state_answer (delete k s) k now g.window,
        state_of-delete s k k,
        (str_eq_iff k k).1 refl,
      )
      (ground arith)
