-- ===== src/Yjs.antt =====
-- src/global/yjs and src/global/redis/embed-queue.service.ts: documents in memory and at rest.
pub mod Markdown
pub mod CrdtService
pub mod Managed
pub mod Flush
pub mod Lifecycle
pub mod DocManager
pub mod Loading
pub mod Exclusive
pub mod Stored
pub mod Timers
pub mod FlushAll
