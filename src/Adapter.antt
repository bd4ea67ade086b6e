-- ===== src/Adapter.antt =====
-- The types that the protocol adapters share (internal/adapter) and the normalizer between the
-- adapters and the core service (internal/normalizer).
pub mod Types
