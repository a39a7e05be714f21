-- ===== src/EventBus.antt =====
-- src/domain/event-bus
pub mod Contract
pub mod Subscriber
pub mod Faults
