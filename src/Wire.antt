-- ===== src/Wire.antt =====
-- bindings/rust/pinbridge-proto/src/lib.rs: the records, the frames and the payload cursor of the
-- query protocol. A byte buffer is a list of numbers below 256.
pub mod Bytes
pub mod Record
pub mod HookLog
pub mod Frame
pub mod Reader
