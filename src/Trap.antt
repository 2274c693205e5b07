-- ===== src/Trap.antt =====
-- bindings/rust/pinbridge-agent/src/execution_trap.rs: address ranges whose execution stops the
-- target. Each function is one step, so a `set` between the accesses of `on_execute` to a slot is
-- not covered.
pub mod Sound
pub mod Claims
pub mod Stops
use pin_bridge.Common.{
  ℕ, ◌+◌, ◌*◌, ◌-◌, ◌^◌, ◌%◌, ◌<◌, List, [], ◌∷◌, Bool, true, false, not, ◌&&◌, ◌||◌, Option, none,
  some, bit_or, min, max, replicate, ltb, leb, ◌==◌, if◌then◌else◌, Result, ok, err, u32_mod,
  u64_mod,
}
use pin_bridge.Event.{Event, empty}
use pin_bridge.Ring.{add_u64, sub_u64}

abbrev pub max_execution_traps : ℕ
max_execution_traps = 64

-- `PB_INVALID_THREAD_ID`.
abbrev pub any_thread : ℕ
any_thread = u32_mod - 1

abbrev pub event_execution_trap : ℕ
event_execution_trap = 32

-- The statuses of Pin's calls that the code names, and the rest by number.
pub data PbStatus : Type 0 where
  pb_ok pb_err_invalid_argument pb_err_unsupported pb_err_invalid_state pb_err_out_of_memory :
      PbStatus
  pb_status : ℕ → PbStatus

pub record Slot : Type 0 where
  pub used : Bool
  pub id : ℕ
  pub start : ℕ
  pub end : ℕ
  pub thread_id : ℕ
  pub active : Bool
  pub one_shot : Bool
  pub hits : ℕ

abbrev pub empty_slot : Slot
empty_slot = record {
  used = false;
  id = 0;
  start = 0;
  end = 0;
  thread_id = any_thread;
  active = false;
  one_shot = false;
  hits = 0;
}

-- The statics; a mask is the list of its bits, by slot, and the mutex is there or not.
pub record Traps : Type 0 where
  pub mutex : Bool
  pub slots : List Slot
  pub active_count : ℕ
  pub next_id : ℕ
  pub bound_start : ℕ
  pub bound_end : ℕ
  pub stop_claimed : Bool
  pub pending_mask : List Bool
  pub pending_tid : ℕ
  pub pending_address : ℕ

abbrev pub no_bits : List Bool
no_bits = replicate max_execution_traps false

unfoldable pub idle : Traps
unfolding replicate
idle = record {
  mutex = false;
  slots = replicate max_execution_traps empty_slot;
  active_count = 0;
  next_id = 1;
  bound_start = u64_mod - 1;
  bound_end = 0;
  stop_claimed = false;
  pending_mask = no_bits;
  pending_tid = any_thread;
  pending_address = 0;
}

-- `init`, by whether Pin makes the mutex.
unfoldable pub init : Traps → Bool → Traps
init t created = if created then record t { mutex = true } else t

-- A mask that is not zero.
abbrev pub some_bit : List Bool → Bool
some_bit [] = false
some_bit (b ∷ bs) = b || some_bit bs

unfoldable pub matches : Slot → ℕ → ℕ → Bool
matches s address thread_id =
    s.active
    && ((leb s.start address && ltb address s.end)
        && ((s.thread_id == any_thread) || (s.thread_id == thread_id)))

unfoldable pub any_active : Traps → Bool
any_active t = not (t.active_count == 0)

-- The loop of `recompute_bounds_locked`.
abbrev pub recompute_bounds : ℕ → ℕ → List Slot → ℕ × ℕ
recompute_bounds start end [] = (start, end)
recompute_bounds start end (s ∷ ss) =
    recompute_bounds (if s.used && s.active then min start s.start else start)
      (if s.used && s.active then max end s.end else end) ss

unfoldable pub with_bounds : Traps → Traps
with_bounds t =
    let bounds = recompute_bounds (u64_mod - 1) 0 t.slots in
    record t { bound_start = bounds.0; bound_end = bounds.1 }

-- A live trap whose range holds the address.
unfoldable pub covers : ℕ → Slot → Bool
covers address s = (s.used && s.active) && (leb s.start address && ltb address s.end)

abbrev pub any_slot : (Slot → Bool) → List Slot → Bool
any_slot f [] = false
any_slot f (s ∷ ss) = f s || any_slot f ss

-- `locked` is whether Pin grants the mutex.
unfoldable pub wants : Traps → Bool → ℕ → Bool
unfolding any_active covers
wants t locked address =
    if not (any_active t)
      || (ltb address t.bound_start || (leb t.bound_end address || not (t.mutex && locked)))
    then false
    else any_slot (covers address) t.slots

-- One round of the loop of `on_execute`: the slot, its bit of the mask, and whether it is retired.
unfoldable pub visit : ℕ → ℕ → Slot → Slot × Bool × Bool
visit address thread_id s =
    if not (matches s address thread_id)
    then (s, false, false)
    else if s.one_shot
    then (record s { active = false; hits = add_u64 s.hits 1 }, true, true)
    else (record s { hits = add_u64 s.hits 1 }, true, false)

-- The loop: the slots, the mask and `ACTIVE_COUNT`.
unfoldable pub visit_all : ℕ → ℕ → ℕ → List Slot → List Slot × List Bool × ℕ
unfolding visit
visit_all address thread_id count [] = ([], [], count)
visit_all address thread_id count (s ∷ ss) =
    let (s', bit, retired) = visit address thread_id s in
    let (ss', bits, count') =
      visit_all address thread_id (if retired then sub_u64 count 1 else count) ss in
    (s' ∷ ss', bit ∷ bits, count')

-- The statics after the loop, and whether `exact_stop` is called.
unfoldable pub claimed : Traps → ℕ → ℕ → List Slot × List Bool × ℕ → Traps × Bool
claimed t address thread_id (slots, mask, count) =
    if some_bit mask
    then (
      record t {
        slots = slots;
        active_count = count;
        stop_claimed = true;
        pending_mask = mask;
        pending_tid = thread_id;
        pending_address = address;
      },
      true,
    )
    else (record t { slots = slots; active_count = count; stop_claimed = false }, false)

unfoldable pub on_execute : Traps → ℕ → ℕ → Traps × Bool
unfolding any_active visit_all claimed
on_execute t address thread_id =
    if not (any_active t) || t.stop_claimed
    then (t, false)
    else claimed t address thread_id (visit_all address thread_id t.active_count t.slots)

abbrev pub as_u64 : Bool → ℕ
as_u64 true = 1
as_u64 false = 0

unfoldable pub trap_event : Traps → ℕ → Slot → Event
trap_event t stop_generation s = record empty {
  kind = event_execution_trap;
  thread_id = t.pending_tid;
  address = t.pending_address;
  arg0 = s.id;
  arg1 = s.start;
  arg2 = s.end;
  arg3 = s.hits;
  arg4 = stop_generation;
  arg5 = bit_or (as_u64 s.one_shot) (2 * as_u64 (not (s.thread_id == any_thread)));
  arg6 = s.thread_id;
}

-- The events of the slots whose bit is set.
unfoldable pub marked : (Slot → Event) → List Slot → List Bool → List Event
marked f [] bits = []
marked f (s ∷ ss) [] = []
marked f (s ∷ ss) (b ∷ bits) = let rest = marked f ss bits in if b then f s ∷ rest else rest

-- The priority events, in the order of submission.
unfoldable pub publish_stopped : Traps → Bool → ℕ → Traps × List Event
publish_stopped t locked stop_generation =
    if not (some_bit t.pending_mask) || not (t.mutex && locked) then (t, []) else (
      record t { pending_mask = no_bits },
      marked (trap_event t stop_generation) t.slots t.pending_mask,
    )

unfoldable pub on_resume : Traps → Traps
on_resume t = record t {
  pending_mask = no_bits;
  pending_tid = any_thread;
  pending_address = 0;
  stop_claimed = false;
}

-- The slots with `new` in the first that is free and not waiting to be published.
unfoldable pub place : Slot → List Slot → List Bool → Option (List Slot)
place new [] bits = none
place new (s ∷ ss) [] = none
place new (s ∷ ss) (b ∷ bits) =
    let rest = place new ss bits in
    if (not s.used || not s.active) && not b
    then some (new ∷ ss)
    else elim rest [ none ↦ none | some ss' ↦ some (s ∷ ss') ]

-- The first slot with the id: the slots after its removal, and whether it was active.
unfoldable pub retire : ℕ → List Slot → List Bool → Option (List Slot × Bool)
retire id [] bits = none
retire id (s ∷ ss) [] = none
retire id (s ∷ ss) (b ∷ bits) =
    let rest = retire id ss bits in
    if s.used && (s.id == id)
    then some (record s { active = false; used = s.used && b } ∷ ss, s.active)
    else elim rest [ none ↦ none | some (ss', live) ↦ some (s ∷ ss', live) ]

unfoldable pub retired : Traps → Option (List Slot × Bool) → Traps × Bool
unfolding with_bounds
retired t none = (t, false)
retired t (some (slots, live)) = (
  with_bounds (record t {
    slots = slots;
    active_count = if live then sub_u64 t.active_count 1 else t.active_count;
  }),
  true,
)

unfoldable pub remove : Traps → Bool → ℕ → Traps × Bool
unfolding retire retired
remove t locked id =
    if not (t.mutex && locked) then (t, false) else retired t (retire id t.slots t.pending_mask)

unfoldable pub new_slot : ℕ → ℕ → ℕ → Bool → Option ℕ → Slot
new_slot id start end one_shot thread_id = record {
  used = true;
  id = id;
  start = start;
  end = end;
  thread_id = elim thread_id [ none ↦ any_thread | some tid ↦ tid ];
  active = true;
  one_shot = one_shot;
  hits = 0;
}

-- The table after `set` has found its slot, or none.
unfoldable pub stored : Traps → Option (List Slot) → Traps × Result PbStatus ℕ
unfolding with_bounds
stored t none = (t, err pb_err_out_of_memory)
stored t (some slots) = (
  with_bounds (record t {
    slots = slots;
    active_count = add_u64 t.active_count 1;
    next_id = (t.next_id + 1) % u32_mod;
  }),
  ok t.next_id,
)

-- The answer of Pin to the flush of the range; a trap that cannot be instrumented is removed.
unfoldable pub flushed : Traps × Result PbStatus ℕ → PbStatus → Bool → Traps × Result PbStatus ℕ
flushed (t, err e) status locked = (t, err e)
flushed (t, ok id) pb_ok locked = (t, ok id)
flushed (t, ok id) status locked = let (t', _) = remove t locked id in (t', err status)

unfoldable pub bad_thread : Option ℕ → Bool
bad_thread none = false
bad_thread (some tid) = tid == any_thread

-- `locked` and `relocked` are the mutex's answers to `set` and to `remove` inside it.
unfoldable pub set :
    Traps → Bool → Bool → PbStatus → Bool → ℕ → ℕ → Bool → Option ℕ → Traps × Result PbStatus ℕ
unfolding bad_thread new_slot place stored flushed
set t probe_mode locked status relocked start end one_shot thread_id =
    if (start == 0) || (leb end start || bad_thread thread_id)
    then (t, err pb_err_invalid_argument)
    else if probe_mode
    then (t, err pb_err_unsupported)
    else if not (t.mutex && locked)
    then (t, err pb_err_invalid_state)
    else flushed
        (stored t (place (new_slot t.next_id start end one_shot thread_id) t.slots t.pending_mask))
        status relocked

-- The row of `list` for a live trap.
unfoldable pub row : Slot → ℕ × ℕ × ℕ × Option ℕ × Bool × ℕ
row s = (
  s.id,
  s.start,
  s.end,
  if not (s.thread_id == any_thread) then some s.thread_id else none,
  s.one_shot,
  s.hits,
)

unfoldable pub rows : List Slot → List (ℕ × ℕ × ℕ × Option ℕ × Bool × ℕ)
unfolding row
rows [] = []
rows (s ∷ ss) = let rest = rows ss in if s.used && s.active then row s ∷ rest else rest

unfoldable pub list : Traps → Bool → List (ℕ × ℕ × ℕ × Option ℕ × Bool × ℕ)
unfolding rows
list t locked = if not (t.mutex && locked) then [] else rows t.slots
