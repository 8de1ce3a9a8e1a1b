-- ===== src/Requests.antt =====
-- core/src/request.ts: a request with many answers, and what ends it.
pub mod Enders
pub mod Many
pub mod Course
pub mod Limits
pub mod Count
