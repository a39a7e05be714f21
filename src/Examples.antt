-- ===== src/Examples.antt =====
-- Examples: a small world in memory, and runs of the server in it.
pub mod Opened
pub mod World
pub mod Flushes
pub mod Queues
pub mod Loads
pub mod Reloads
pub mod Requests
pub mod Sockets
pub mod Texts
pub mod Rows
pub mod Tokens
pub mod Files
pub mod Garbage
pub mod Hashes
pub mod Members
pub mod Http
pub mod Logs
pub mod Queries
pub mod Deliveries
