-- ===== src/Breaker.antt =====
-- bindings/rust/pinbridge-agent/src/bp.rs: the breakpoint table, the exact stop of a thread, and the
-- breaker, which is the one thread that stops and resumes the application. Each function is one
-- step, and so is each round of the breaker: two hits of one breakpoint that overlap are in
-- Breaker/Race.
pub mod Table
pub mod Race
pub mod Replay
pub mod Watchdog
use pin_bridge.Common.{
  ℕ, zero, suc, ◌+◌, ◌-◌, ◌^◌, ◌%◌, List, [], ◌∷◌, map, Bool, true, false, not, ◌&&◌, ◌||◌, Option,
  none, some, length, get_elem?, set, ltb, leb, ◌==◌, if◌then◌else◌, Result, ok, err, u32_mod,
  u64_mod,
}
use pin_bridge.Event.{Event}
use pin_bridge.Ring.{add_u64, sub_u64}
use pin_bridge.Stepper
use pin_bridge.Stepper.{
  Stepper, consume_start_replay, claim_breakpoint, claim_candidate, candidate_address,
  begin_suspend, end_suspend, cancel, release,
}
use pin_bridge.Trap
use pin_bridge.Trap.{
  Traps, PbStatus, pb_err_invalid_argument, pb_err_invalid_state, pb_err_out_of_memory,
  publish_stopped, on_resume,
}

abbrev pub max_breakpoints : ℕ
max_breakpoints = 64

-- `NO_HIT_TID`.
abbrev pub no_hit_tid : ℕ
no_hit_tid = u32_mod - 1

pub record Slot : Type 0 where
  pub used : Bool
  pub id : ℕ
  pub address : ℕ
  pub hits : ℕ
  pub active : Bool
  pub one_shot : Bool

-- The statics of the file, STOPPED of control.rs, and the statics of the stepper and the traps. The
-- stub is there or not.
pub record Breaker : Type 0 where
  pub mutex : Bool
  pub slots : List Slot
  pub active_count : ℕ
  pub next_id : ℕ
  pub hit_pending : Bool
  pub watchdog_ticks : ℕ
  pub stop_gen : ℕ
  pub last_hit_tid : ℕ
  pub last_hit_addr : ℕ
  pub stub : Bool
  pub redirect_active : Bool
  pub redirect_tid : ℕ
  pub redirect_addr : ℕ
  pub resume_skip_tid : ℕ
  pub resume_skip_addr : ℕ
  pub stopped : Bool
  pub stepper : Stepper
  pub traps : Traps

-- The pulse of the breaker's semaphore only shortens its wait.
unfoldable pub request_stop : Breaker → Breaker
request_stop b = record b { hit_pending = true }

unfoldable pub arm_step_watchdog : Breaker → ℕ → Breaker
arm_step_watchdog b ticks = record b { watchdog_ticks = ticks }

-- `is_64` is the architecture; a 32-bit stub cannot hold a wider address.
unfoldable pub redirect_arm : Breaker → Bool → ℕ → ℕ → Breaker × Bool
redirect_arm b is_64 tid address =
    if not b.stub || b.redirect_active
    then (b, false)
    else if not is_64 && leb u32_mod address
    then (record b { redirect_tid = tid; redirect_addr = address }, false)
    else (record b { redirect_active = true; redirect_tid = tid; redirect_addr = address }, true)

unfoldable pub release_redirect : Breaker → Breaker
release_redirect b = record b { redirect_active = false }

-- What follows a redirect that is armed or not; `set_ok` is Pin's answer to the new program counter,
-- after which the thread runs in the stub.
unfoldable pub redirected : Bool → Breaker × Bool → Breaker
unfolding request_stop release_redirect
redirected set_ok (b, armed) =
    if armed
    then if set_ok then request_stop b else request_stop (release_redirect (request_stop b))
    else request_stop b

-- `context` is whether the callback has a context.
unfoldable pub exact_stop : Breaker → Bool → Bool → Bool → ℕ → ℕ → Breaker
unfolding redirect_arm redirected
exact_stop b context is_64 set_ok tid address =
    let noted = record b { last_hit_tid = tid; last_hit_addr = address } in
    if context then redirected set_ok (redirect_arm noted is_64 tid address) else request_stop noted

-- `rip` is the program counter of the stopped thread, where Pin has it.
unfoldable pub arm_resume_skip : Breaker → Option ℕ → Breaker
arm_resume_skip b rip =
    let at_hit : Bool = elim rip [ none ↦ false | some ip ↦ ip == b.last_hit_addr ] in
    if not (b.last_hit_tid == no_hit_tid) && at_hit
    then record b { resume_skip_addr = b.last_hit_addr; resume_skip_tid = b.last_hit_tid }
    else record b { resume_skip_tid = no_hit_tid }

unfoldable pub any_active : Breaker → Bool
any_active b = ltb 0 b.active_count

unfoldable pub find_slot : ℕ → List Slot → ℕ → Option ℕ
find_slot address [] index = none
find_slot address (s ∷ ss) index =
    let later = find_slot address ss (suc index) in
    if s.used && ((s.address == address) && s.active) then some index else later

-- The instrumentation-time lookup; `locked` is the mutex's answer.
unfoldable pub find : Breaker → Bool → ℕ → Option ℕ
unfolding any_active find_slot
find b locked address =
    if not (any_active b) || not (b.mutex && locked) then none else find_slot address b.slots 0

-- The hit of a slot: it is counted, and a one-shot breakpoint switched off.
unfoldable pub hit_slot : Slot → Slot
hit_slot s = record s { hits = add_u64 s.hits 1; active = s.active && not s.one_shot }

unfoldable pub count_hit : Breaker → ℕ → Slot → Breaker
unfolding hit_slot
count_hit b index s = record b {
  slots = set b.slots index (hit_slot s);
  active_count = if s.one_shot then sub_u64 b.active_count 1 else b.active_count;
}

-- A hit that is not swallowed: `thread` is the thread's id, where Pin gives it.
unfoldable pub take_hit : Breaker → Bool → Bool → Bool → Option ℕ → ℕ → Slot → Breaker
unfolding count_hit exact_stop
take_hit b context is_64 set_ok none index s =
    request_stop
      (record (count_hit b index s) { last_hit_tid = no_hit_tid; last_hit_addr = s.address })
take_hit b context is_64 set_ok (some tid) index s =
    let counted = count_hit b index s in
    let claimed = claim_breakpoint counted.stepper tid s.address in
    exact_stop (record counted { stepper = claimed.0 }) context is_64 set_ok tid s.address

-- The swallowing of the one re-execution after a resume, then the hit.
unfoldable pub past_replay : Breaker → Bool → Bool → Bool → Option ℕ → ℕ → Slot → Breaker
past_replay b context is_64 set_ok none index s = take_hit b context is_64 set_ok none index s
past_replay b context is_64 set_ok (some tid) index s =
    if not (b.resume_skip_tid == no_hit_tid) && (b.resume_skip_tid == tid)
    then if b.resume_skip_addr == s.address
      then record b { resume_skip_tid = no_hit_tid }
      else take_hit (record b { resume_skip_tid = no_hit_tid }) context is_64 set_ok (some tid)
          index s
    else take_hit b context is_64 set_ok (some tid) index s

-- `consume_start_replay` of the stepper for a thread with an id.
unfoldable pub step_replay : Breaker → Option ℕ → ℕ → Breaker × Bool
step_replay b none address = (b, false)
step_replay b (some tid) address =
    let r = consume_start_replay b.stepper tid address in (record b { stepper = r.0 }, r.1)

unfoldable pub on_hit_slot : Breaker → Bool → Bool → Bool → Option ℕ → ℕ → Option Slot → Breaker
on_hit_slot b context is_64 set_ok thread index none = b
on_hit_slot b context is_64 set_ok thread index (some s) =
    if not s.active
    then b
    else let replay = step_replay b thread s.address in
      if replay.1 then replay.0 else past_replay replay.0 context is_64 set_ok thread index s

-- The analysis callback of a breakpoint.
unfoldable pub on_hit : Breaker → Bool → Bool → Bool → Option ℕ → ℕ → Breaker
on_hit b context is_64 set_ok thread index =
    if leb max_breakpoints index
    then b
    else on_hit_slot b context is_64 set_ok thread index (get_elem? b.slots index)

-- The landing of a step, once the stepper has claimed it.
unfoldable pub landed : Breaker → Bool → Bool → Bool → ℕ → Stepper × Option ℕ → Breaker
landed b context is_64 set_ok tid (stepper, none) = record b { stepper = stepper }
landed b context is_64 set_ok tid (stepper, some address) =
    exact_stop (record b { stepper = stepper }) context is_64 set_ok tid address

-- The analysis callback of a decoded step successor; without a thread id nothing happens.
unfoldable pub on_step_hit : Breaker → Bool → Bool → Bool → Option ℕ → ℕ → Breaker
on_step_hit b context is_64 set_ok none candidate = b
on_step_hit b context is_64 set_ok (some tid) candidate =
    let address = candidate_address b.stepper candidate in
    let replay = if address == 0 then (b, false) else step_replay b (some tid) address in
    if replay.1
    then replay.0
    else landed replay.0 context is_64 set_ok tid (claim_candidate replay.0.stepper candidate tid)

-- What the world sees of a stop: the context that is rolled back, and the trap events.
pub record Effects : Type 0 where
  pub rewound : Option (ℕ × ℕ)
  pub events : List Event

abbrev pub no_effects : Effects
no_effects = record { rewound = none; events = [] }

-- The world is stopped: `locked` is the trap table's mutex's answer.
unfoldable pub stop_completed : Breaker → Bool → Breaker × Effects
stop_completed b locked =
    let generation = add_u64 b.stop_gen 1 in
    let published = publish_stopped b.traps locked generation in
    (
      record b {
        watchdog_ticks = 0;
        stepper = cancel b.stepper;
        stopped = true;
        stop_gen = generation;
        traps = published.0;
      },
      record {
        rewound = if b.redirect_active then some (b.redirect_tid, b.redirect_addr) else none;
        events = published.1;
      },
    )

-- The part of a round on a pending hit; `granted` is whether Pin stops the threads.
unfoldable pub stop_pending : Breaker → Bool → Bool → Breaker × Effects
stop_pending b granted locked =
    let entered = record b { hit_pending = false; stepper = begin_suspend b.stepper } in
    if not b.hit_pending
    then (b, no_effects)
    else if not b.stopped && granted
    then stop_completed entered locked
    else (entered, no_effects)

-- The step watchdog of a round.
unfoldable pub watchdog : Breaker → Breaker
watchdog b =
    let next = b.watchdog_ticks - 1 in
    if not (ltb 0 b.watchdog_ticks) then b else record b {
      watchdog_ticks = next;
      hit_pending = b.hit_pending || ((next == 0) && not b.stopped);
    }

-- A round without a command.
unfoldable pub tick : Breaker → Bool → Bool → Breaker × Effects
tick b granted locked = stop_pending (watchdog b) granted locked

-- The command CMD_STOP, with CMD_RESULT.
unfoldable pub command_stop : Breaker → Bool → Bool → (Breaker × Effects) × Bool
command_stop b granted locked =
    let entered = record b { stepper = begin_suspend b.stepper } in
    (if granted then stop_completed entered locked else (entered, no_effects), granted)

-- Any other command resumes.
unfoldable pub command_resume : Breaker → Bool → Breaker × Bool
command_resume b granted =
    let freed = release_redirect (record b { stepper = release b.stepper }) in
    (
      if granted
          then record freed {
            stopped = false;
            stepper = end_suspend freed.stepper;
            traps = on_resume freed.traps;
            last_hit_tid = no_hit_tid;
            last_hit_addr = 0;
          }
          else freed,
      granted,
    )

unfoldable pub live_at : ℕ → List Slot → Option ℕ
live_at address [] = none
live_at address (s ∷ ss) =
    let later = live_at address ss in
    if s.used && ((s.address == address) && s.active) then some s.id else later

unfoldable pub place : Slot → List Slot → Option (List Slot)
place new [] = none
place new (s ∷ ss) =
    let rest = place new ss in
    if not s.used || not s.active
    then some (new ∷ ss)
    else elim rest [ none ↦ none | some ss' ↦ some (s ∷ ss') ]

abbrev pub new_slot : ℕ → ℕ → Bool → Slot
new_slot id address one_shot = record {
  used = true;
  id = id;
  address = address;
  hits = 0;
  active = true;
  one_shot = one_shot;
}

unfoldable pub stored : Breaker → Option (List Slot) → Breaker × Result PbStatus ℕ
stored b none = (b, err pb_err_out_of_memory)
stored b (some slots) = (
  record b {
    slots = slots;
    active_count = add_u64 b.active_count 1;
    next_id = add_u64 b.next_id 1;
  },
  ok (b.next_id % u32_mod),
)

-- `set_impl`; the status of the flush is only logged.
unfoldable pub set_impl : Breaker → Bool → ℕ → Bool → Breaker × Result PbStatus ℕ
unfolding live_at place stored
set_impl b locked address one_shot =
    if address == 0
    then (b, err pb_err_invalid_argument)
    else if not (b.mutex && locked)
    then (b, err pb_err_invalid_state)
    else elim (live_at address b.slots) [
      | some id ↦ (b, ok id)
      | none ↦ stored b (place (new_slot (b.next_id % u32_mod) address one_shot) b.slots)
    ]

unfoldable pub retire : ℕ → List Slot → Option (List Slot)
retire id [] = none
retire id (s ∷ ss) =
    let rest = retire id ss in
    if s.used && (s.id == id)
    then some (record s { used = false; active = false } ∷ ss)
    else elim rest [ none ↦ none | some ss' ↦ some (s ∷ ss') ]

unfoldable pub retired : Breaker → Option (List Slot) → Breaker × Bool
retired b none = (b, false)
retired b (some slots) = (record b { slots = slots; active_count = sub_u64 b.active_count 1 }, true)

unfoldable pub remove : Breaker → Bool → ℕ → Breaker × Bool
unfolding retire retired
remove b locked id = if not (b.mutex && locked) then (b, false) else retired b (retire id b.slots)

unfoldable pub rows : List Slot → List (ℕ × ℕ × ℕ)
rows [] = []
rows (s ∷ ss) =
    let rest = rows ss in if s.used && s.active then (s.id, s.address, s.hits) ∷ rest else rest

unfoldable pub list : Breaker → Bool → List (ℕ × ℕ × ℕ)
unfolding rows
list b locked = if not (b.mutex && locked) then [] else rows b.slots
