-- ===== src/Http.antt =====
-- src/global/common: the errors that the server throws, the answer to each (http-exception.filter.ts),
-- and the interceptors around the controller.
pub mod Errors
pub mod Filter
pub mod Faults
pub mod Exchange
pub mod Interceptors
pub mod Answers
pub mod Counted
pub mod Content
