-- ===== src/Recorder/Scope.antt =====
-- The scope of a recording in record.rs: the checks of `start_spec` and `extend_ranges`, the
-- address, thread and kind statics that they store, and the gate that the callbacks read.
pub mod Slots
pub mod Gate
use pin_bridge.Common.{
  ℕ, zero, suc, ◌+◌, ◌-◌, ◌^◌, ◌%◌, List, [], ◌∷◌, Bool, true, false, ◌&&◌, ◌||◌, not, Option, none,
  some, ltb, leb, ◌==◌, if◌then◌else◌, min, max, bit_and, length, get_or, u32_mod, u64_mod,
}
use pin_bridge.Common.{update}

abbrev pub Range : Type 0
Range = ℕ × ℕ

abbrev pub max_record_ranges : ℕ
max_record_ranges = 16

abbrev pub max_record_threads : ℕ
max_record_threads = 64

-- The kinds 2, 3, 4, 5, 6, 9, 10 and 13.
abbrev pub recordable_mask : ℕ
recordable_mask = 2 ^ 2 + 2 ^ 3 + 2 ^ 4 + 2 ^ 9 + 2 ^ 10 + 2 ^ 13 + 2 ^ 5 + 2 ^ 6

-- The statics RECORD_*, and the flags of the session.
pub record Scope : Type 0 where
  pub armed : Bool
  pub drain_done : Bool
  pub failed : Bool
  pub session_started : Bool
  pub sticky : Bool
  pub kinds : ℕ
  pub lo : ℕ
  pub hi : ℕ
  pub range_count : ℕ
  pub range_lo : ℕ → ℕ
  pub range_hi : ℕ → ℕ
  pub thread_count : ℕ
  pub threads : ℕ → ℕ

pub data State : Type 0 where
  session_idle session_recording session_draining session_complete session_failed : State

unfoldable pub session_state : Scope → State
session_state s =
    if s.armed
    then session_recording
    else if not s.drain_done
    then session_draining
    else if s.failed
    then session_failed
    else if s.session_started
    then session_complete
    else session_idle

pub data Refusal : Type 0 where
  already_recording still_draining bad_mask bad_range_count bad_range too_many_threads empty_path
        not_recording too_many_ranges :
      Refusal

-- `ranges.iter().any(|(lo, hi)| lo >= hi)`.
unfoldable pub any_empty : List Range → Bool
any_empty [] = false
any_empty ((lo, hi) ∷ ranges) = leb hi lo || any_empty ranges

-- The checks of `start_spec`, in their order. The path counts by its length.
unfoldable pub check_start : Scope → ℕ → List Range → List ℕ → ℕ → Option Refusal
unfolding any_empty
check_start s kinds_mask ranges threads path_len =
    if s.armed
    then some already_recording
    else if not s.drain_done
    then some still_draining
    else if kinds_mask == 0 || not (bit_and kinds_mask (u32_mod - 1 - recordable_mask) == 0)
    then some bad_mask
    else if length ranges == 0 || ltb max_record_ranges (length ranges)
    then some bad_range_count
    else if any_empty ranges
    then some bad_range
    else if ltb max_record_threads (length threads)
    then some too_many_threads
    else if path_len == 0
    then some empty_path
    else none

-- A bounding range, grown by each of the ranges.
unfoldable pub bounds : Range → List Range → Range
bounds (lo, hi) [] = (lo, hi)
bounds (lo, hi) ((lo', hi') ∷ ranges) = bounds (min lo lo', max hi hi') ranges

-- What `start_spec` stores, up to ARMED. Every element of the static arrays is written.
unfoldable pub store_scope : Scope → ℕ → List Range → List ℕ → Scope
unfolding bounds
store_scope s kinds_mask ranges threads =
    let (lo, hi) = bounds (u64_mod - 1, 0) ranges in
    record s {
      drain_done = false;
      failed = false;
      session_started = true;
      kinds = kinds_mask;
      lo = lo;
      hi = hi;
      range_lo = λ i. if ltb i max_record_ranges then (get_or ranges i (0, 0)).0 else s.range_lo i;
      range_hi = λ i. if ltb i max_record_ranges then (get_or ranges i (0, 0)).1 else s.range_hi i;
      range_count = length ranges;
      threads = λ i. if ltb i max_record_threads then get_or threads i 0 else s.threads i;
      thread_count = length threads;
      armed = true;
    }

-- The checks of `extend_ranges`.
unfoldable pub check_extension : Scope → List Range → Option Refusal
unfolding any_empty
check_extension s ranges =
    if not s.armed
    then some not_recording
    else if length ranges == 0 || ltb max_record_ranges (length ranges)
    then some bad_range_count
    else if any_empty ranges
    then some bad_range
    else if ltb max_record_ranges (s.range_count + length ranges)
    then some too_many_ranges
    else none

-- The loop of `extend_ranges` that fills the slots from `index` on.
unfoldable pub fill_slots : Scope → ℕ → List Range → Scope
fill_slots s index [] = s
fill_slots s index ((lo, hi) ∷ ranges) =
    fill_slots
      (record s { range_lo = update s.range_lo index lo; range_hi = update s.range_hi index hi })
      (index + 1) ranges

-- The stores after the loop: the bounding range, and then the count that publishes the slots.
unfoldable pub publish_ranges : Scope → List Range → Scope
unfolding bounds
publish_ranges s ranges =
    let (lo, hi) = bounds (s.lo, s.hi) ranges in
    record s { lo = lo; hi = hi; range_count = s.range_count + length ranges }

unfoldable pub extend : Scope → List Range → Scope
unfolding fill_slots publish_ranges
extend s ranges = publish_ranges (fill_slots s s.range_count ranges) ranges

-- The loop of `in_record_ranges`, with the rounds that are left and the index.
unfoldable pub scan_ranges : Scope → ℕ → ℕ → ℕ → Bool
scan_ranges s address zero index = false
scan_ranges s address (suc rounds) index =
    let rest = scan_ranges s address rounds (index + 1) in
    if leb (s.range_lo index) address && ltb address (s.range_hi index) then true else rest

-- The loads of the count and of the slots are one step.
unfoldable pub in_record_ranges : Scope → ℕ → Bool
unfolding scan_ranges
in_record_ranges s address =
    if s.range_count == 0
    then leb s.lo address && ltb address s.hi
    else scan_ranges s address (min s.range_count max_record_ranges) 0

-- The loop of `thread_allowed`.
unfoldable pub scan_threads : Scope → ℕ → ℕ → ℕ → Bool
scan_threads s thread_id zero index = false
scan_threads s thread_id (suc rounds) index =
    let rest = scan_threads s thread_id rounds (index + 1) in
    if s.threads index == thread_id then true else rest

unfoldable pub thread_allowed : Scope → ℕ → Bool
unfolding scan_threads
thread_allowed s thread_id =
    if s.thread_count == 0
    then true
    else scan_threads s thread_id (min s.thread_count max_record_threads) 0

-- The masks have 32 bits, so the sign that `(1 << kind) as u64` extends meets none of them.
unfoldable pub armed_in_range : Scope → ℕ → ℕ → ℕ → Bool
unfolding in_record_ranges thread_allowed
armed_in_range s address thread_id kind =
    s.armed
    && not (bit_and s.kinds (2 ^ (kind % 32)) == 0)
    && in_record_ranges s address
    && thread_allowed s thread_id

-- The loop of `instrumentation_range`.
unfoldable pub grow_range : Scope → ℕ → ℕ → Range → Range
grow_range s zero index (lo, hi) = (lo, hi)
grow_range s (suc rounds) index (lo, hi) =
    grow_range s rounds (index + 1) (min lo (s.range_lo index), max hi (s.range_hi index))

unfoldable pub instrumentation_range : Scope → Range
unfolding grow_range
instrumentation_range s =
    if s.range_count == 0
    then (s.lo, s.hi)
    else grow_range s (min s.range_count max_record_ranges) 0 (u64_mod - 1, 0)

unfoldable pub instrumentation_enabled : Scope → Bool
instrumentation_enabled s = s.armed || s.sticky
