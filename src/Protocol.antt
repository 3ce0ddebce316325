-- ===== src/Protocol.antt =====
-- crates/common/src/protocol.rs: the wire types, the checks on them and their laws.
pub mod Types
pub mod Names
pub mod Checks
