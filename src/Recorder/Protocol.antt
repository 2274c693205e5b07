-- ===== src/Recorder/Protocol.antt =====
-- The producers, the drainer and `stop` of record.rs, as atomic steps on the statics of a session
-- that has started. A schedule is a list of actions; any thread may move at any time.
pub mod Threads
pub mod Slots
pub mod Moves
pub mod Publish
pub mod Invariant
pub mod Steps
pub mod Schedule
pub mod Submit
pub mod Finish
pub mod Races
use pin_bridge.Common.{
  ℕ, zero, suc, ◌+◌, ◌-◌, ◌%◌, ◌≤◌, List, [], ◌∷◌, ◌++◌, Bool, true, false, ◌&&◌, not, ltb, leb,
  ◌==◌, if◌then◌else◌, u64_mod,
}
pub use pin_bridge.Common.{update}
use pin_bridge.Event.{Event, empty}

-- A thread inside `submit`, with its event and the values that it has loaded.
pub data Producer : Type 0 where
  -- outside `submit`
  idle : Producer
  -- the entry check saw ARMED
  arrived : Event → Producer
  -- IN_FLIGHT is raised
  entered : Event → Producer
  -- the second check saw ARMED
  live : Event → Producer
  -- `try_reserve` has loaded CLAIM
  loaded : Event → ℕ → Producer
  -- and found room, before its compare-exchange
  roomy : Event → ℕ → Producer
  -- or none: DROPPED is to be raised
  refused : Producer
  -- a slot is reserved, and its payload is to be written
  reserved : Event → ℕ → Producer
  -- the payload is written, and its tag is to be published
  wrote : Event → ℕ → Producer
  -- IN_FLIGHT is to be lowered
  leaving : Producer

-- Where the drainer's loop stands.
pub data Place : Type 0 where
  -- at the top
  poll : Place
  -- CLAIM is loaded
  compares : ℕ → Place
  -- the tag fitted
  matched : Place
  -- the payload is read
  fetched : Event → Place
  -- the tag did not fit; then ARMED is down; then IN_FLIGHT is 0
  missing missing_stopped holed : Place
  -- nothing is claimed; then ARMED is down
  idle_check idle_stopped : Place
  -- the loop has ended
  closed : Place

-- The statics, the slab by slot, and the threads. `consumed` is what the drainer has read, and
-- `log` the events in the order of their reservations: both are for the statements only.
pub record System : Type 0 where
  pub claim : ℕ
  pub drained : ℕ
  pub dropped : ℕ
  pub written : ℕ
  pub armed : Bool
  pub failed : Bool
  pub in_flight : ℕ
  pub tag : ℕ → ℕ
  pub payload : ℕ → Event
  pub producers : ℕ → Producer
  pub place : Place
  pub next : ℕ
  pub consumed : List Event
  pub log : List Event

-- A session as `start_spec` leaves it.
unfoldable pub started : System
started = record {
  claim = 0;
  drained = 0;
  dropped = 0;
  written = 0;
  armed = true;
  failed = false;
  in_flight = 0;
  tag = λ _. 0;
  payload = λ _. empty;
  producers = λ _. idle;
  place = poll;
  next = 0;
  consumed = [];
  log = [];
}

abbrev pub goto : System → ℕ → Producer → System
goto s i p = record s { producers = update s.producers i p }

-- `current.wrapping_sub(drained) >= size`.
abbrev pub is_full : ℕ → ℕ → ℕ → Bool
is_full size current drained = leb size ((current + u64_mod - drained) % u64_mod)

-- One step of thread `i`, which stands at `p`. An idle thread starts `submit` with `event`; a weak
-- compare-exchange may fail when `spurious` says so.
unfoldable pub produce : ℕ → System → ℕ → Event → Bool → Producer → System
produce size s i event spurious idle = if s.armed then goto s i (arrived event) else s
produce size s i event spurious (arrived e) = record (goto s i (entered e)) {
  in_flight = s.in_flight + 1;
}
produce size s i event spurious (entered e) =
    if s.armed then goto s i (live e) else goto s i leaving
produce size s i event spurious (live e) = goto s i (loaded e s.claim)
produce size s i event spurious (loaded e c) =
    if is_full size c s.drained then goto s i refused else goto s i (roomy e c)
produce size s i event spurious (roomy e c) =
    if s.claim == c && not spurious
    then record (goto s i (reserved e c)) { claim = c + 1; log = s.log ++ e ∷ [] }
    else goto s i (loaded e s.claim)
produce size s i event spurious refused = record (goto s i leaving) { dropped = s.dropped + 1 }
produce size s i event spurious (reserved e c) = record (goto s i (wrote e c)) {
  payload = update s.payload (c % size) (record e { sequence = c + 1 });
}
produce size s i event spurious (wrote e c) = record (goto s i leaving) {
  tag = update s.tag (c % size) (c + 1);
}
produce size s i event spurious leaving = record (goto s i idle) { in_flight = s.in_flight - 1 }

-- One step of the drainer.
unfoldable pub drain : ℕ → System → Place → System
drain size s poll = record s { place = compares s.claim }
drain size s (compares k) =
    if ltb s.next k
    then if s.tag (s.next % size) == s.next + 1
      then record s { place = matched }
      else record s { place = missing }
    else record s { place = idle_check }
drain size s matched = record s { place = fetched (s.payload (s.next % size)) }
drain size s (fetched e) = record s {
  written = s.written + 1;
  next = s.next + 1;
  drained = s.next + 1;
  consumed = s.consumed ++ e ∷ [];
  place = poll;
}
drain size s missing =
    if s.armed then record s { place = poll } else record s { place = missing_stopped }
drain size s missing_stopped =
    if s.in_flight == 0 then record s { place = holed } else record s { place = poll }
drain size s holed = record s {
  failed = true;
  dropped = s.dropped + 1;
  next = s.next + 1;
  drained = s.next + 1;
  place = poll;
}
drain size s idle_check =
    if s.armed then record s { place = poll } else record s { place = idle_stopped }
drain size s idle_stopped =
    if s.in_flight == 0 then record s { place = closed } else record s { place = poll }
drain size s closed = s

pub data Action : Type 0 where
  produces : ℕ → Event → Bool → Action
  drains stops : Action

unfoldable pub step : ℕ → System → Action → System
unfolding produce drain
step size s (produces i event spurious) = produce size s i event spurious (s.producers i)
step size s drains = drain size s s.place
step size s stops = record s { armed = false }

unfoldable pub run : ℕ → System → List Action → System
unfolding step
run size s [] = s
run size s (a ∷ actions) = run size (step size s a) actions
