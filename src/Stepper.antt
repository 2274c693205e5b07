-- ===== src/Stepper.antt =====
-- bindings/rust/pinbridge-agent/src/stepper.rs: the single-step engine. Each function is one step
-- on the statics. What a call of Pin answers is an argument, and what Pin is told is in the state:
-- the threads whose single-step traps pass through, the park semaphore, the requests to stop.
pub mod Claims
pub mod Replay
pub mod Candidates
pub mod Parking
pub mod Suspension
use pin_bridge.Common.{
  ℕ, zero, suc, ◌+◌, ◌-◌, List, [], ◌∷◌, Bool, true, false, ◌&&◌, ◌||◌, not, Option, none, some,
  ltb, leb, ◌==◌, if◌then◌else◌, min, length, get_or, u32_mod, take,
}
use pin_bridge.Common.{update}

pub data Mode : Type 0 where
  into over decoded : Mode

abbrev pub is_into : Mode → Bool
is_into into = true
is_into _ = false

abbrev pub is_decoded : Mode → Bool
is_decoded decoded = true
is_decoded _ = false

abbrev pub max_candidates : ℕ
max_candidates = 3

-- `PB_INVALID_THREAD_ID`.
abbrev pub no_thread : ℕ
no_thread = u32_mod - 1

pub record Stepper : Type 0 where
  pub step_tid : ℕ
  pub start_ip : ℕ
  pub mode : Mode
  pub stepping : Bool
  pub replay_pending : Bool
  pub compat_tid : ℕ
  pub candidate_count : ℕ
  pub candidates : ℕ → ℕ
  pub has_semaphore : Bool
  pub has_mutex : Bool
  pub parked : Bool
  pub parked_tid : ℕ
  pub parked_ip : ℕ
  pub suspending : Bool
  pub passthrough : ℕ → Bool
  pub semaphore : Bool
  pub stops : ℕ

-- `pb_pin_set_single_step_passthrough`, where it succeeds.
abbrev pub pass : Stepper → ℕ → Bool → Stepper
pass s t b = record s { passthrough = update s.passthrough t b }

-- `accepted` is whether Pin accepts the thread.
unfoldable pub arm_tf_compat : Stepper → ℕ → Bool → Stepper × Bool
arm_tf_compat s t accepted =
    let previous = s.compat_tid in
    let s1 =
      if not (previous == no_thread) && not (previous == t) then pass s previous false else s in
    if accepted
    then (record (pass s1 t true) { compat_tid = t }, true)
    else (record s1 { compat_tid = no_thread }, false)

unfoldable pub disarm_tf_compat : Stepper → ℕ → Stepper
disarm_tf_compat s t =
    if s.compat_tid == t then record (pass s t false) { compat_tid = no_thread } else s

-- `made_semaphore` and `made_mutex` are whether Pin makes them.
unfoldable pub init : Stepper → Bool → Bool → Stepper × Bool
init s made_semaphore made_mutex =
    if made_semaphore
    then if made_mutex
      then (record s { has_semaphore = true; has_mutex = true }, true)
      else (record s { has_semaphore = true }, false)
    else (s, false)

unfoldable pub release : Stepper → Stepper
release s =
    if s.parked then record s { parked = false; semaphore = s.semaphore || s.has_semaphore } else s

unfoldable pub begin_suspend : Stepper → Stepper
unfolding release
begin_suspend s = release (record s { suspending = true })

unfoldable pub end_suspend : Stepper → Stepper
end_suspend s = record s { suspending = false }

unfoldable pub park_slot : Stepper → ℕ → ℕ → Stepper
park_slot s t address = record s {
  parked = true;
  parked_tid = t;
  parked_ip = address;
  stepping = false;
}

-- `park_current` up to its wait on the semaphore. `locked` is whether Pin grants the mutex.
unfoldable pub park_current : Stepper → ℕ → ℕ → Bool → Stepper × Bool
unfolding park_slot
park_current s t address locked =
    if s.has_mutex
    then if locked && (not s.suspending && not s.parked)
      then (record (park_slot s t address) { stops = s.stops + 1 }, true)
      else (s, false)
    else if s.parked
    then (record s { stops = s.stops + 1 }, true)
    else (record (park_slot s t address) { stops = s.stops + 1 }, true)

-- The rest of `park_current`: the wait ends once the semaphore is set, and clears it.
unfoldable pub wake : Stepper → Stepper × Bool
wake s =
    if s.has_semaphore
    then if s.semaphore then (record s { semaphore = false }, true) else (s, false)
    else (s, true)

unfoldable pub arm : Stepper → ℕ → ℕ → Bool → Bool → Stepper × Bool
unfolding arm_tf_compat
arm s t start_ip is_over accepted =
    let (s1, ok) = arm_tf_compat s t accepted in
    if ok
    then (
      record s1 {
        step_tid = t;
        start_ip = start_ip;
        mode = if is_over then over else into;
        replay_pending = true;
        candidate_count = 0;
        stepping = true;
      },
      true,
    )
    else (s1, false)

unfoldable pub publish_candidates : Stepper → ℕ → ℕ → List ℕ → Stepper
publish_candidates s t start_ip addresses =
    let count = min (length addresses) max_candidates in
    record s {
      candidates = λ i. if ltb i max_candidates then get_or addresses i 0 else s.candidates i;
      step_tid = t;
      start_ip = start_ip;
      mode = decoded;
      replay_pending = true;
      candidate_count = count;
      stepping = not (count == 0);
    }

unfoldable pub cancel : Stepper → Stepper
cancel s =
    let s1 = if s.compat_tid == no_thread then s else pass s s.compat_tid false in
    record s1 {
      compat_tid = no_thread;
      stepping = false;
      replay_pending = false;
      candidate_count = 0;
      candidates = λ i. if ltb i max_candidates then 0 else s.candidates i;
    }

pub data ArmError : Type 0 where
  invalid_argument not_accepted not_flushed : ArmError

-- `flushed` is whether Pin removes the instrumentation of an address.
unfoldable pub all_flushed : (ℕ → Bool) → List ℕ → Bool
all_flushed flushed [] = true
all_flushed flushed (a ∷ addresses) = flushed a && all_flushed flushed addresses

unfoldable pub arm_candidates :
    Stepper → ℕ → ℕ → List ℕ → Bool → (ℕ → Bool) → Stepper × Option ArmError
unfolding publish_candidates arm_tf_compat cancel all_flushed
arm_candidates s t start_ip addresses accepted flushed =
    let s1 = publish_candidates s t start_ip addresses in
    if s1.candidate_count == 0
    then (s1, some invalid_argument)
    else let (s2, ok) = arm_tf_compat s1 t accepted in
      if ok
      then if all_flushed flushed (take s1.candidate_count addresses)
        then (s2, none)
        else (cancel s2, some not_flushed)
      else (cancel s2, some not_accepted)

-- `(0..count).find(..)`, with the rounds that are left.
unfoldable pub find_candidate : Stepper → ℕ → ℕ → ℕ → Option ℕ
find_candidate s address zero index = none
find_candidate s address (suc rounds) index =
    let rest = find_candidate s address rounds (index + 1) in
    if s.candidates index == address then some index else rest

unfoldable pub candidate_index : Stepper → ℕ → Option ℕ
unfolding find_candidate
candidate_index s address =
    if not s.stepping || not (is_decoded s.mode)
    then none
    else find_candidate s address (min s.candidate_count max_candidates) 0

unfoldable pub candidate_address : Stepper → ℕ → ℕ
candidate_address s index =
    if leb (min s.candidate_count max_candidates) index then 0 else s.candidates index

unfoldable pub consume_start_replay : Stepper → ℕ → ℕ → Stepper × Bool
consume_start_replay s t address =
    if not s.stepping || (not (s.step_tid == t) || not (s.start_ip == address))
    then (s, false)
    else (record s { replay_pending = false }, s.replay_pending)

unfoldable pub claim_candidate : Stepper → ℕ → ℕ → Stepper × Option ℕ
unfolding disarm_tf_compat
claim_candidate s index t =
    if leb (min s.candidate_count max_candidates) index
      || (not (is_decoded s.mode) || not (s.step_tid == t))
    then (s, none)
    else let address = s.candidates index in
      if address == 0 || not s.stepping
      then (s, none)
      else (disarm_tf_compat (record s { stepping = false }) t, some address)

-- `claim_candidate(..).is_some()`.
abbrev pub is_claimed : Stepper × Option ℕ → Stepper × Bool
is_claimed (s, none) = (s, false)
is_claimed (s, some address) = (s, true)

abbrev pub claim_found : Stepper → ℕ → Option ℕ → Stepper × Bool
claim_found s t none = (s, false)
claim_found s t (some index) = is_claimed (claim_candidate s index t)

unfoldable pub claim_breakpoint : Stepper → ℕ → ℕ → Stepper × Bool
claim_breakpoint s t address = claim_found s t (candidate_index s address)

unfoldable pub on_step_event : Stepper → ℕ → ℕ → Bool → Stepper × Bool
unfolding consume_start_replay disarm_tf_compat park_current
on_step_event s t address locked =
    if not s.stepping || not (s.step_tid == t)
    then (s, false)
    else let (s1, replayed) = consume_start_replay s t address in
      if replayed
      then (s1, true)
      else if not (is_into s1.mode)
      then (s1, false)
      else let (s2, granted) = park_current (disarm_tf_compat s1 t) t address locked in
        if granted then (s2, true) else (record s2 { stops = s2.stops + 1 }, true)
