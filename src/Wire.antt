-- ===== src/Wire.antt =====
-- Package protocol-ingress/internal/protocol/gosterwy: the Goster-WY frame format of TCP devices.
pub mod Types
pub mod Checksum
pub mod Codec
pub mod Payload
pub mod Runs
