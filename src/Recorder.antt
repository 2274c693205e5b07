-- ===== src/Recorder.antt =====
-- bindings/rust/pinbridge-agent/src/record.rs: the trace recorder.
pub mod Tape
pub mod Protocol
pub mod Session
pub mod Scope
