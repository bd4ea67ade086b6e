-- ===== src/Tcp.antt =====
-- The TCP adapter of Goster-WY devices (internal/adapter/customtcp): one connection, from the first
-- frame to its close. The core service, the normalizer, the socket, the clock and the cryptography
-- are the environment of a connection (Types), whose state `W` each call may change.
pub mod Types
pub mod Commands
pub mod Auth
pub mod Session
pub mod Reports
pub mod Downlink
pub mod Outside
pub mod Connection
pub mod Runs
