-- ===== src/Ws.antt =====
-- src/domain/ws: the gateway that clients talk to.
pub mod Event
pub mod Presence
pub mod State
pub mod Gateway
pub mod YjsHandlers
pub mod Counted
pub mod Stable
pub mod Rooms
pub mod Guards
pub mod Admission
pub mod Access
pub mod Delivery
