-- ===== src/Telemetry.antt =====
-- The global event ring of bindings/rust/pinbridge-agent/src/ring.rs: the statics beside `RING`,
-- and the functions that use them. What the Pin mutex answers is an argument.
pub mod Counts
use pin_bridge.Common.{
  ℕ, List, Bool, true, false, Option, none, some, ltb, if◌then◌else◌, get_or, get_elem?, set,
  replicate, Run, returns, run_then,
}
use pin_bridge.Event.{Event, event_kind_count}
use pin_bridge.Ring.{Ring, push, page_into, drain_newest_into, add_u64}
use pin_bridge.Ring
use pin_bridge.Channel.{TryLock, failed, busy, acquired, lock_spin, spin_limit}

abbrev pub ring_capacity : ℕ
ring_capacity = 65536

-- `mutex` is whether `init` has stored a handle.
pub record Telemetry : Type 0 where
  pub ring : Ring
  pub mutex : Bool
  pub kind_counters : List ℕ
  pub total_seq : ℕ
  pub ring_total : ℕ

pub fresh : Telemetry
fresh = record {
  ring = Ring.new ring_capacity;
  mutex = false;
  kind_counters = replicate event_kind_count 0;
  total_seq = 0;
  ring_total = 0;
}

-- `created` is whether `pb_pin_mutex_init` returned PB_OK.
pub init : Telemetry → Bool → Telemetry
init t created = if created then record t { mutex = true } else t

pub count_kind : List ℕ → ℕ → List ℕ
count_kind counters kind =
    if ltb kind event_kind_count
    then set counters kind (add_u64 (get_or counters kind 0) 1)
    else counters

pub submit : Telemetry → Event → TryLock → Telemetry
submit t event lock =
    let counted = record t {
      kind_counters = count_kind t.kind_counters event.kind;
      total_seq = add_u64 t.total_seq 1;
    } in
    if t.mutex
    then elim lock [
      | failed ↦ counted
      | busy ↦ counted
      | acquired ↦
          let (ring, total) = push ring_capacity t.ring event in
          record counted { ring = ring; ring_total = total }
    ]
    else counted

pub try_page : Telemetry → ℕ → ℕ → List Event → (ℕ → TryLock) → Run (Option (ℕ × ℕ) × List Event)
try_page t after limit out answers =
    if t.mutex
    then if lock_spin spin_limit answers
      then run_then (page_into ring_capacity t.ring after limit out)
          (λ (missed, page). returns (some (missed, t.ring.total), page))
      else returns (none, out)
    else returns (none, out)

pub try_drain_newest :
    Telemetry → ℕ → List Event → (ℕ → TryLock) → Run (Option (Unit {0}) × List Event)
try_drain_newest t newest out answers =
    if t.mutex
    then if lock_spin spin_limit answers
      then run_then (drain_newest_into ring_capacity t.ring newest out)
          (λ page. returns (some tt, page))
      else returns (none, out)
    else returns (none, out)

-- `KIND_COUNTERS[kind]`; an index out of range panics.
pub kind_count : Telemetry → ℕ → Option ℕ
kind_count t kind = get_elem? t.kind_counters kind
