-- ===== src/Login/Store.antt =====
-- web/v1/login_attempt_store_memory.go. Each method holds the mutex, so it is one step. A time.Time
-- is the nanoseconds since the year 1, so that the zero time is 0; durations are nanoseconds.
pub mod Laws
use goster_io_t.Common.{ℕ, ◌+◌, Bool, true, false, ◌&&◌, Option, none, some, List, [], ◌∷◌, ◌++◌}
use goster_io_t.Common.{length, leb, ltb, ◌==◌, is_empty, if◌then◌else◌}
use goster_io_t.Common.Text.{Text}
use goster_io_t.Common.Assoc.{Assoc, lookup, insert, delete}

-- LoginAttemptSnapshot
pub record Snapshot : Type 0 where
  pub failures : List ℕ
  pub locked_until : ℕ

abbrev pub no_attempts : Snapshot
no_attempts = record { failures = []; locked_until = 0 }

abbrev pub Attempts : Type 0
Attempts = Assoc Snapshot

-- s.attempts[key], the zero value where the key is missing
unfoldable pub state_of : Attempts → Text → Snapshot
state_of s key = elim (lookup key s) [ none ↦ no_attempts | some state ↦ state ]

-- `ts.After(now.Add(-window))`
unfoldable pub recent : ℕ → ℕ → List ℕ → List ℕ
recent now window [] = []
recent now window (ts ∷ rest) =
    let kept = recent now window rest in if ltb now (ts + window) then ts ∷ kept else kept

unfoldable pub prune : ℕ → ℕ → Snapshot → Snapshot
prune now window state = record {
  failures = recent now window state.failures;
  locked_until = if ltb now state.locked_until then state.locked_until else 0;
}

-- The rest of prunedState: an empty state is deleted, any other is written back.
unfoldable pub write_back : Attempts → Text → Snapshot → Attempts × Snapshot
write_back s key state =
    if is_empty state.failures && state.locked_until == 0
    then (delete key s, no_attempts)
    else (insert key state s, state)

unfoldable pub pruned_state : Attempts → Text → ℕ → ℕ → Attempts × Snapshot
unfolding write_back
pruned_state s key now window = write_back s key (prune now window (state_of s key))

unfoldable pub snapshot : Attempts → Text → ℕ → ℕ → Attempts × Snapshot
snapshot s key now window = pruned_state s key now window

-- The state with one more failure.
unfoldable pub failed : ℕ → ℕ → ℕ → Snapshot → Snapshot
failed now lockout max_failures state =
    let failures = state.failures ++ (now ∷ []) in
    record {
      failures = failures;
      locked_until =
          if leb max_failures (length failures) then now + lockout else state.locked_until;
    }

unfoldable pub record_failure : Attempts → Text → ℕ → ℕ → ℕ → ℕ → Attempts
record_failure s key now window lockout max_failures =
    let (s', state) = pruned_state s key now window in
    insert key (failed now lockout max_failures state) s'

unfoldable pub reset : Attempts → Text → Attempts
reset s key = delete key s
