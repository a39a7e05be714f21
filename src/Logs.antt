-- ===== src/Logs.antt =====
-- src/global/common/logging and the log of the gateway, ws-log.service.ts.
pub mod Config
pub mod Format
pub mod Sockets
