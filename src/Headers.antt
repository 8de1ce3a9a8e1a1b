-- ===== src/Headers.antt =====
-- The headers of core/src/headers.ts.
pub mod Names
pub mod Table
pub mod Wire
pub mod Equal
pub mod Canonical
pub mod Capitals
pub mod Trimming
pub mod Valid
pub mod Built
pub mod Deleting
pub mod Setting
pub mod Lines
pub mod Status
pub mod Printed
pub mod RoundTrip
