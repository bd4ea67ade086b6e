-- ===== src/Login/Runs.antt =====
-- A run of the guard: a limit of two failures in a window of 100, locked for 50.
use goster_io_t.Common.{arith, [], ◌∷◌}
use goster_io_t.Common.Text.{Text}
use goster_io_t.Login.Key.{login_attempt_key}
use goster_io_t.Login.Store.{Attempts, no_attempts}
use goster_io_t.Login.Guard.{Policy, allow}
use goster_io_t.Login.Guard.Laws.{AnswersBy, fail, look, run, history, allow-run}

abbrev policy : Policy
policy = record { max_failures = 2; window = 100; lockout = 50 }

abbrev ann : Text
ann = 97 ∷ 110 ∷ 110 ∷ []

abbrev home : Text
home = 49 ∷ 58 ∷ 56 ∷ []

allow-run_example :
    (let calls = fail ann home 10 ∷ look ann home 20 ∷ fail ann home 30 ∷ [] in
      AnswersBy 40
        (history policy (login_attempt_key ann home) no_attempts calls).locked_until
        (allow policy (run policy [] calls) ann home 40).1)
allow-run_example =
    allow-run policy (omega arith) ann home
      (fail ann home 10 ∷ look ann home 20 ∷ fail ann home 30 ∷ []) 40
      (omega arith, (omega arith, (omega arith, omega arith)))

abbrev locked : Attempts
locked = (ann, record { failures = 10 ∷ 30 ∷ []; locked_until = 80 }) ∷ []
