-- ===== src/Login/Guard.antt =====
-- web/v1/login_guard.go over the store in memory, whose methods return no error. `now` is the
-- guard's clock.
pub mod Laws
use goster_io_t.Common.{ℕ, ◌-◌, ◌*◌, Bool, true, false, ltb, if◌then◌else◌}
use goster_io_t.Common.Int.{ℤ, is_positive, pos_part}
use goster_io_t.Common.Text.{Text}
use goster_io_t.Login.Key.{login_attempt_key}
use goster_io_t.Login.Store
use goster_io_t.Login.Store.{Attempts, Snapshot, snapshot}

-- config.LoginProtectionConfig
pub record LoginProtectionConfig : Type 0 where
  pub max_failures : ℤ
  pub window : ℤ
  pub lockout : ℤ

-- The policy of LoginAttemptGuard; its fields are positive.
pub record Policy : Type 0 where
  pub max_failures : ℕ
  pub window : ℕ
  pub lockout : ℕ

unfoldable pub positive_or : ℤ → ℕ → ℕ
positive_or n default = if is_positive n then pos_part n else default

-- newLoginAttemptGuard; the defaults are five failures in ten minutes, locked for fifteen minutes.
unfoldable pub new_login_attempt_guard : LoginProtectionConfig → Policy
new_login_attempt_guard cfg = record {
  max_failures = positive_or cfg.max_failures 5;
  window = positive_or cfg.window 600000000000;
  lockout = positive_or cfg.lockout 900000000000;
}

-- The answer of Allow: how long to wait, and whether the attempt may go on.
unfoldable pub allowed : ℕ → Snapshot → ℕ × Bool
allowed now state =
    if ltb now state.locked_until then (state.locked_until - now, false) else (0, true)

unfoldable pub allow : Policy → Attempts → Text → Text → ℕ → Attempts × (ℕ × Bool)
unfolding allowed
allow g s username remote_addr now =
    let (s', state) = snapshot s (login_attempt_key username remote_addr) now g.window in
    (s', allowed now state)

unfoldable pub record_failure : Policy → Attempts → Text → Text → ℕ → Attempts
record_failure g s username remote_addr now =
    Store.record_failure s (login_attempt_key username remote_addr) now g.window g.lockout
      g.max_failures

unfoldable pub reset : Attempts → Text → Text → Attempts
reset s username remote_addr = Store.reset s (login_attempt_key username remote_addr)
