-- ===== src/Identity.antt =====
-- go/src/identity and go/src/inter/authz_inter.go: who a request acts as.
pub mod Resolver
pub mod Runs
