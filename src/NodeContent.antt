-- ===== src/NodeContent.antt =====
-- src/domain/node-content
pub mod Operation
pub mod Service
