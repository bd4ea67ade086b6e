-- ===== src/Ingress.antt =====
-- go/src/web/ingress/service.go: what the protocol ingress calls.
pub mod Messages
pub mod Commands
pub mod Devices
pub mod Events
pub mod Runs
