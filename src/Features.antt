-- ===== src/Features.antt =====
-- core/src/semver.ts: versions of servers, and the features that they support.
pub mod SemVer
pub mod Versions
pub mod Table
pub mod Filled
pub mod Changes
pub mod Support
