-- ===== src/Tenant.antt =====
-- go/src/storage/tenant/repository.go: tenants, their users, and the invitations to a tenant.
pub mod Tables
pub mod Members
pub mod Invitations
pub mod Owned
pub mod Runs
