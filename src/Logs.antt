-- ===== src/Logs.antt =====
-- The way of an agent's logs to the controller: crates/agent/src/log_shipper.rs and
-- crates/controller/src/log_store.rs.
pub mod Shipper
pub mod Store
