-- ===== src/Protocol.antt =====
-- Parts of the class `ProtocolHandler` of core/src/protocol.ts.
pub mod Outbound
pub mod Ordered
pub mod Pongs
pub mod Flowing
pub mod Publish
pub mod Announced
pub mod Published
pub mod Subscriptions
pub mod Table
pub mod Others
pub mod Arrivals
pub mod Limits
pub mod Given
pub mod Maximum
pub mod Failures
pub mod Kinds
pub mod Aborts
pub mod Permissions
pub mod Denied
