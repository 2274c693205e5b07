-- ===== src/Recorder/Tape.antt =====
-- The drainer's run-length encoding (`flush_run` and the `match` of `drain_main` in record.rs):
-- the records that it writes for the events that it reads from the slab.
pub mod Expand
pub mod Order
use pin_bridge.Common.{
  ℕ, zero, suc, ◌+◌, ◌-◌, List, [], ◌∷◌, ◌++◌, ◌&&◌, Option, none, some, min, ltb, ◌==◌, Bool,
  if◌then◌else◌, u64_mod,
}
use pin_bridge.Event.{Event, empty, event_marker, event_repeat}

-- `u64::saturating_add`.
abbrev pub saturating_add : ℕ → ℕ → ℕ
saturating_add a b = min (a + b) (u64_mod - 1)

unfoldable pub marker : ℕ → ℕ → ℕ → Event
marker sequence tag value = record empty {
  sequence = sequence;
  kind = event_marker;
  address = 0;
  arg0 = tag;
  arg1 = value;
}

unfoldable pub same_payload : Event → Event → Bool
same_payload left right =
    left.kind == right.kind
    && left.thread_id == right.thread_id
    && left.address == right.address
    && left.arg0 == right.arg0
    && left.arg1 == right.arg1
    && left.arg2 == right.arg2
    && left.arg3 == right.arg3
    && left.arg4 == right.arg4
    && left.arg5 == right.arg5
    && left.arg6 == right.arg6
    && left.arg7 == right.arg7

unfoldable pub repeat_record : Event → ℕ → Event
repeat_record event repeat_count = record empty {
  sequence = saturating_add event.sequence repeat_count;
  kind = event_repeat;
  thread_id = event.thread_id;
  address = event.address;
  arg0 = repeat_count;
  arg1 = event.kind;
}

-- The records that `flush_run` writes.
unfoldable pub flush_run : Event → ℕ → List Event
flush_run event repeat_count =
    if ltb 0 repeat_count then event ∷ repeat_record event repeat_count ∷ [] else event ∷ []

-- The drainer's run, and the records written so far.
pub record Drain : Type 0 where
  pub pending : Option Event
  pub pending_repeats : ℕ
  pub tape : List Event

abbrev pub start : Drain
start = record { pending = none; pending_repeats = 0; tape = [] }

-- The `Some(previous)` arm.
unfoldable pub extend_run : Drain → Event → Event → Drain
unfolding same_payload
extend_run d previous event =
    let expected = saturating_add (saturating_add previous.sequence d.pending_repeats) 1 in
    if expected == event.sequence && same_payload previous event
    then record d { pending = some previous; pending_repeats = saturating_add d.pending_repeats 1 }
    else record {
      pending = some event;
      pending_repeats = 0;
      tape = d.tape ++ flush_run previous d.pending_repeats;
    }

-- One event read from the slab.
unfoldable pub consume : Drain → Event → Drain
consume d event = elim d.pending [
  | none ↦ record d { pending = some event }
  | some previous ↦ extend_run d previous event
]

unfoldable pub consume_all : Drain → List Event → Drain
consume_all d [] = d
consume_all d (e ∷ es) = consume_all (consume d e) es

-- The flush of the last run, after the loop.
unfoldable pub finish : Drain → List Event
finish d = elim d.pending [
  | none ↦ d.tape
  | some previous ↦ d.tape ++ flush_run previous d.pending_repeats
]

-- The records of a session without write errors: start marker, runs, stop marker. `next` is where
-- the drainer has got to, and `recorded` is WRITTEN.
unfoldable pub session_tape : ℕ → ℕ → ℕ → List Event → List Event
session_tape kinds_mask next recorded events =
    marker 0 1 kinds_mask
    ∷ (finish (consume_all start events) ++ (marker (next + 1) 2 recorded ∷ []))
