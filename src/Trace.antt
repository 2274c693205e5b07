-- ===== src/Trace.antt =====
-- bindings/rust/pinbridge-hub-core/src/trace_query.rs: the hub's index of a recorded trace file.
pub mod Artifact
pub mod Signed
pub mod Store
pub mod Import
pub mod Query
pub mod Session
use Prim.Native.String.{String}
use pin_bridge.Common.{ℕ, List}

-- `HubError`, with the fixed part of its message: what `format!` adds to it is left out.
pub data HubError : Type 0 where
  validation internal : String → HubError

pub record Record : Type 0 where
  pub sequence : ℕ
  pub kind : ℕ
  pub thread_id : ℕ
  pub address : ℕ
  pub args : List ℕ
