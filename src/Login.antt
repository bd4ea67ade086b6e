-- ===== src/Login.antt =====
-- go/src/web/v1: the guard that locks a login after too many failures.
pub mod Store
pub mod Guard
pub mod Key
pub mod Runs
