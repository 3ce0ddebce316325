-- ===== src/Transport.antt =====
-- crates/common/src/transport.rs: the object keys, the operations on the bucket, and their laws.
pub mod Keys
pub mod Objects
pub mod Mailbox
pub mod Bulk
pub mod Liveness
pub mod Quiet
