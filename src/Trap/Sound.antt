-- ===== src/Trap/Sound.antt =====
-- The table of traps after any calls: the count, the bounds and the slots agree.
use pin_bridge.Common.{
  ℕ, zero, suc, ◌+◌, ◌-◌, ◌≤◌, ◌<◌, ◌≡◌, refl, ap, ◌∙◌, List, [], ◌∷◌, Bool, true, false, not, ◌&&◌,
  ◌||◌, Option, none, some, inl, inr, Bool-cases, arith, All, All-imp, length, min, max, replicate,
  ltb, leb, ◌==◌, if◌then◌else◌, Result, ok, err, ◌%◌, u32_mod, u64_mod, by_cases,
}
use pin_bridge.Ring.{add_u64, sub_u64}
use pin_bridge.Trap.{
  PbStatus, pb_ok, pb_err_invalid_argument, pb_err_unsupported, pb_err_invalid_state,
  pb_err_out_of_memory, pb_status, Slot, empty_slot, Traps, idle, init, some_bit, matches,
  any_active, recompute_bounds, with_bounds, covers, any_slot, wants, visit, visit_all, claimed,
  on_execute, publish_stopped, on_resume, place, retire, retired, remove, new_slot, stored, flushed,
  set, bad_thread,
}

abbrev pub live : List Slot → ℕ
live [] = 0
live (s ∷ ss) = (if s.active then 1 else 0) + live ss

-- An active slot is in use, with its range inside the bounds.
abbrev Ready : ℕ → ℕ → Slot → Type 0
Ready lo hi s = s.active ≡ true → (s.used ≡ true) × (lo ≤ s.start) × (s.end ≤ hi)

pub record Sound (t : Traps) : Type 0 where
  pub table : length t.slots ≡ 64
  pub counted : t.active_count ≡ live t.slots
  pub ready : All (Ready t.bound_start t.bound_end) t.slots

flag-le : (b : Bool) → (if b then 1 else 0) ≤ 1
flag-le true = omega arith
flag-le false = omega arith

live-le : (ss : List Slot) → live ss ≤ length ss
live-le [] = omega arith
live-le (s ∷ ss) = ground (arith, live-le ss)

-- One round keeps the count right, whatever it is for the other slots.
visit-live :
    (address thread_id base : ℕ) (s : Slot)
    → base + 1 < u64_mod
    → (if (visit address thread_id s).2
        then sub_u64 (base + (if s.active then 1 else 0)) 1
        else base + (if s.active then 1 else 0))
      ≡ base + (if (visit address thread_id s).0.active then 1 else 0)
unfolding visit matches
visit-live address thread_id base s small = ground arith

visit-Ready :
    (address thread_id lo hi : ℕ) (s : Slot)
    → Ready lo hi s
    → Ready lo hi (visit address thread_id s).0
unfolding visit matches
visit-Ready address thread_id lo hi s r = ground arith

module _ (address thread_id : ℕ) where
  visit_all-live :
      (ss : List Slot) (count base : ℕ)
      → count ≡ base + live ss
      → base + length ss < u64_mod
      → (visit_all address thread_id count ss).2
        ≡ base + live (visit_all address thread_id count ss).0
  unfolding visit_all
  visit_all-live [] count base e small = e
  visit_all-live (s ∷ ss) count base e small =
      let few = live-le ss in
      let split : count ≡ base + live ss + (if s.active then 1 else 0) = omega arith in
      let after = visit-live address thread_id (base + live ss) s (omega arith) in
      let bit = if (visit address thread_id s).0.active then 1 else 0 in
      let next : (if (visit address thread_id s).2 then sub_u64 count 1 else count)
          ≡ base + bit + live ss =
        rw split (after ∙ omega arith) in
      visit_all-live ss _ (base + bit) next
        (omega (arith, flag-le (visit address thread_id s).0.active))
      ∙ omega arith

  visit_all-Ready :
      (ss : List Slot) (count lo hi : ℕ)
      → All (Ready lo hi) ss
      → All (Ready lo hi) (visit_all address thread_id count ss).0
  unfolding visit_all
  visit_all-Ready [] count lo hi r = tt
  visit_all-Ready (s ∷ ss) count lo hi r =
      (visit-Ready address thread_id lo hi s r.0, visit_all-Ready ss _ lo hi r.1)

  length-visit_all :
      (ss : List Slot) (count : ℕ)
      → (length (visit_all address thread_id count ss).0 ≡ length ss)
        × (length (visit_all address thread_id count ss).1 ≡ length ss)
  unfolding visit_all
  length-visit_all [] count = (refl, refl)
  length-visit_all (s ∷ ss) count = let (a, b) = length-visit_all ss _ in (ap suc a, ap suc b)

  claimed-Sound :
      (t : Traps) (found : List Slot × List Bool × ℕ)
      → length found.0 ≡ 64
      → found.2 ≡ live found.0
      → All (Ready t.bound_start t.bound_end) found.0
      → Sound (claimed t address thread_id found).0
  unfolding claimed
  claimed-Sound t found a b c =
      by_cases (λ (r : Traps × Bool). Sound r.0) (some_bit found.1) _ _
        (λ q. record { table = a; counted = b; ready = c })
        (λ q. record { table = a; counted = b; ready = c })

  on_execute-Sound : (t : Traps) → Sound t → Sound (on_execute t address thread_id).0
  unfolding on_execute
  on_execute-Sound t v =
      let few = live-le t.slots in
      by_cases (λ (r : Traps × Bool). Sound r.0) (not (any_active t) || t.stop_claimed) _ _ (λ q. v)
        (λ q.
          claimed-Sound t (visit_all address thread_id t.active_count t.slots)
            ((length-visit_all t.slots t.active_count).0 ∙ v.table)
            (visit_all-live t.slots t.active_count 0 (v.counted ∙ omega arith)
                (omega (arith, v.table))
              ∙ omega arith)
            (visit_all-Ready t.slots t.active_count t.bound_start t.bound_end v.ready))

-- What `recompute_bounds_locked` stores: a start below that of every live slot, an end above.
recompute_bounds_mono :
    (start end : ℕ) (ss : List Slot)
    → ((recompute_bounds start end ss).0 ≤ start) × (end ≤ (recompute_bounds start end ss).1)
recompute_bounds_mono start end [] = (omega arith, omega arith)
recompute_bounds_mono start end (s ∷ ss) =
    let (a, b) =
      recompute_bounds_mono (if s.used && s.active then min start s.start else start)
        (if s.used && s.active then max end s.end else end) ss in
    (ground arith, ground arith)

abbrev Owned : Slot → Type 0
Owned s = s.active ≡ true → s.used ≡ true

recompute_bounds-Ready :
    (start end : ℕ) (ss : List Slot)
    → All Owned ss
    → All (Ready (recompute_bounds start end ss).0 (recompute_bounds start end ss).1) ss
recompute_bounds-Ready start end [] h = tt
recompute_bounds-Ready start end (s ∷ ss) h =
    let start' = if s.used && s.active then min start s.start else start in
    let end' = if s.used && s.active then max end s.end else end in
    let (a, b) = recompute_bounds_mono start' end' ss in
    (
      λ on.
          let used = h.0 on in
          let low : start' ≡ min start s.start = rw (used, on) refl in
          let high : end' ≡ max end s.end = rw (used, on) refl in
          (used, omega (arith, a, low), omega (arith, b, high)),
      recompute_bounds-Ready start' end' ss h.1,
    )

with_bounds-Sound :
    (t : Traps)
    → length t.slots ≡ 64
    → t.active_count ≡ live t.slots
    → All Owned t.slots
    → Sound (with_bounds t)
unfolding with_bounds
with_bounds-Sound t a b c = record {
  table = a;
  counted = b;
  ready = recompute_bounds-Ready (u64_mod - 1) 0 t.slots c;
}

Ready-Owned : (lo hi : ℕ) (ss : List Slot) → All (Ready lo hi) ss → All Owned ss
Ready-Owned lo hi ss r = All-imp (Ready lo hi) Owned ss (λ s h on. (h on).0) r

abbrev Placed : List Slot → Option (List Slot) → Type 0
Placed ss none = Unit
Placed ss (some ss') = (live ss' ≡ live ss + 1) × (length ss' ≡ length ss) × All Owned ss'

Placed-cons :
    (s : Slot) (ss : List Slot) (o : Option (List Slot))
    → Owned s
    → Placed ss o
    → Placed (s ∷ ss) (elim o [ none ↦ none | some ss' ↦ some (s ∷ ss') ])
Placed-cons s ss none h p = tt
Placed-cons s ss (some ss') h p = (omega (arith, p.0), ap suc p.1, (h, p.2))

-- A slot that `set` takes is not active, so the count goes up by one.
place-Placed :
    (new : Slot) (ss : List Slot) (bits : List Bool)
    → new.active ≡ true
    → new.used ≡ true
    → All Owned ss
    → Placed ss (place new ss bits)
unfolding place
place-Placed new [] bits on used h = tt
place-Placed new (s ∷ ss) [] on used h = tt
place-Placed new (s ∷ ss) (b ∷ bits) on used h =
    by_cases (Placed (s ∷ ss)) ((not s.used || not s.active) && not b) _ _
      (λ q.
        let off : s.active ≡ false = ground (arith, h.0) in
        (rw (on, off) (omega arith), refl, ((λ o. used), h.1)))
      (λ q. Placed-cons s ss (place new ss bits) h.0 (place-Placed new ss bits on used h.1))

abbrev Retired : List Slot → Option (List Slot × Bool) → Type 0
Retired ss none = Unit
Retired ss (some (ss', was)) =
    (live ss ≡ live ss' + (if was then 1 else 0)) × (length ss' ≡ length ss) × All Owned ss'

Retired-cons :
    (s : Slot) (ss : List Slot) (o : Option (List Slot × Bool))
    → Owned s
    → Retired ss o
    → Retired (s ∷ ss) (elim o [ none ↦ none | some (ss', was) ↦ some (s ∷ ss', was) ])
Retired-cons s ss none h p = tt
Retired-cons s ss (some (ss', was)) h p = (omega (arith, p.0), ap suc p.1, (h, p.2))

retire-Retired :
    (id : ℕ) (ss : List Slot) (bits : List Bool) → All Owned ss → Retired ss (retire id ss bits)
unfolding retire
retire-Retired id [] bits h = tt
retire-Retired id (s ∷ ss) [] h = tt
retire-Retired id (s ∷ ss) (b ∷ bits) h =
    by_cases (Retired (s ∷ ss)) (s.used && (s.id == id)) _ _
      (λ q. (omega arith, refl, ((λ o. absurd (ground arith)), h.1)))
      (λ q. Retired-cons s ss (retire id ss bits) h.0 (retire-Retired id ss bits h.1))

retired-Sound :
    (t : Traps) (o : Option (List Slot × Bool))
    → Sound t
    → Retired t.slots o
    → Sound (retired t o).0
unfolding retired
retired-Sound t none v p = v
retired-Sound t (some (ss', was)) v p =
    let few = live-le t.slots in
    with_bounds-Sound
      (record t {
        slots = ss';
        active_count = if was then sub_u64 t.active_count 1 else t.active_count;
      })
      (p.1 ∙ v.table)
      (by_cases (λ n. n ≡ live ss') was _ _
        (λ q.
          let one : live t.slots ≡ live ss' + 1 = p.0 ∙ rw q refl in
          omega (arith, v.counted, one, v.table))
        (λ q. v.counted ∙ p.0 ∙ rw q (omega arith)))
      p.2

remove-Sound : (t : Traps) (locked : Bool) (id : ℕ) → Sound t → Sound (remove t locked id).0
unfolding remove
remove-Sound t locked id v =
    by_cases (λ (r : Traps × Bool). Sound r.0) (not (t.mutex && locked)) _ _ (λ q. v)
      (λ q.
        retired-Sound t (retire id t.slots t.pending_mask) v
          (retire-Retired id t.slots t.pending_mask (Ready-Owned _ _ t.slots v.ready)))

stored-Sound :
    (t : Traps) (o : Option (List Slot)) → Sound t → Placed t.slots o → Sound (stored t o).0
unfolding stored
stored-Sound t none v p = v
stored-Sound t (some ss') v p =
    let few = live-le t.slots in
    with_bounds-Sound
      (record t {
        slots = ss';
        active_count = add_u64 t.active_count 1;
        next_id = (t.next_id + 1) % u32_mod;
      })
      (p.1 ∙ v.table) (omega (arith, v.counted, p.0, v.table)) p.2

flushed-Sound :
    (r : Traps × Result PbStatus ℕ) (status : PbStatus) (locked : Bool)
    → Sound r.0
    → Sound (flushed r status locked).0
unfolding flushed
flushed-Sound (t, err e) status locked v = v
flushed-Sound (t, ok id) pb_ok locked v = v
flushed-Sound (t, ok id) pb_err_invalid_argument locked v = remove-Sound t locked id v
flushed-Sound (t, ok id) pb_err_unsupported locked v = remove-Sound t locked id v
flushed-Sound (t, ok id) pb_err_invalid_state locked v = remove-Sound t locked id v
flushed-Sound (t, ok id) pb_err_out_of_memory locked v = remove-Sound t locked id v
flushed-Sound (t, ok id) (pb_status n) locked v = remove-Sound t locked id v

set-Sound :
    (t : Traps) (probe_mode locked : Bool) (status : PbStatus) (relocked : Bool) (start end : ℕ)
    (one_shot : Bool) (thread_id : Option ℕ)
    → Sound t
    → Sound (set t probe_mode locked status relocked start end one_shot thread_id).0
unfolding set new_slot
set-Sound t probe_mode locked status relocked start end one_shot thread_id v =
    let State : Traps × Result PbStatus ℕ → Type 0 = λ r. Sound r.0 in
    by_cases State ((start == 0) || (leb end start || bad_thread thread_id)) _ _ (λ q. v)
      (λ q.
        by_cases State probe_mode _ _ (λ q'. v)
          (λ q'.
            by_cases State (not (t.mutex && locked)) _ _ (λ u. v)
              (λ u. flushed-Sound _ status relocked (
                stored-Sound t _ v (
                  place-Placed (new_slot t.next_id start end one_shot thread_id) t.slots
                    t.pending_mask refl refl (Ready-Owned _ _ t.slots v.ready))))))

-- The calls of the file, each with what Pin answers to it.
pub data Call : Type 0 where
  inits : Bool → Call
  executes : ℕ → ℕ → Call
  publishes : Bool → ℕ → Call
  resumes : Call
  sets : Bool → Bool → PbStatus → Bool → ℕ → ℕ → Bool → Option ℕ → Call
  removes : Bool → ℕ → Call

unfoldable pub call : Traps → Call → Traps
unfolding init on_resume
call t (inits created) = init t created
call t (executes address thread_id) = (on_execute t address thread_id).0
call t (publishes locked generation) = (publish_stopped t locked generation).0
call t resumes = on_resume t
call t (sets probe_mode locked status relocked start end one_shot thread_id) =
    (set t probe_mode locked status relocked start end one_shot thread_id).0
call t (removes locked id) = (remove t locked id).0

unfoldable pub after_calls : Traps → List Call → Traps
after_calls t [] = t
after_calls t (c ∷ cs) = after_calls (call t c) cs

-- A table in which only the fields of the pending stop and the mutex differ.
same-Sound :
    (t : Traps) (mutex claimed : Bool) (mask : List Bool) (tid address : ℕ)
    → Sound t
    → Sound (record t {
      mutex = mutex;
      stop_claimed = claimed;
      pending_mask = mask;
      pending_tid = tid;
      pending_address = address;
    })
same-Sound t mutex claimed mask tid address v = record {
  table = v.table;
  counted = v.counted;
  ready = v.ready;
}

call-Sound : (t : Traps) (c : Call) → Sound t → Sound (call t c)
unfolding call init on_resume publish_stopped
call-Sound t (inits created) v =
    by_cases Sound created _ _ (λ q. same-Sound t true _ _ _ _ v) (λ q. v)
call-Sound t (executes address thread_id) v = on_execute-Sound address thread_id t v
call-Sound t (publishes locked generation) v =
    by_cases (λ r. Sound (let (t', _) = r in t'))
      (not (some_bit t.pending_mask) || not (t.mutex && locked)) _ _ (λ q. v)
      (λ q. same-Sound t _ _ _ _ _ v)
call-Sound t resumes v = same-Sound t _ _ _ _ _ v
call-Sound t (sets probe_mode locked status relocked start end one_shot thread_id) v =
    set-Sound t probe_mode locked status relocked start end one_shot thread_id v
call-Sound t (removes locked id) v = remove-Sound t locked id v

empty_slots-Ready : (n lo hi : ℕ) → All (Ready lo hi) (replicate n empty_slot)
unfolding replicate
empty_slots-Ready zero lo hi = tt
empty_slots-Ready (suc n) lo hi = ((λ on. absurd (ground (arith, on))), empty_slots-Ready n lo hi)

idle-Sound : Sound idle
unfolding idle
idle-Sound = record { table = refl; counted = refl; ready = empty_slots-Ready 64 (u64_mod - 1) 0 }

calls-Sound : (t : Traps) (cs : List Call) → Sound t → Sound (after_calls t cs)
unfolding after_calls
calls-Sound t [] v = v
calls-Sound t (c ∷ cs) v = calls-Sound (call t c) cs (call-Sound t c v)

-- After any calls, whatever Pin answers: the table has its 64 slots, the count is that of the active
-- ones, and each active slot is in use with its range inside the bounds.
pub after_calls-Sound : (cs : List Call) → Sound (after_calls idle cs)
after_calls-Sound cs = calls-Sound idle cs idle-Sound

-- A slot that the fast tests of `wants` rule out does not cover the address.
outside-uncovered :
    (lo hi address : ℕ) (ss : List Slot)
    → All (Ready lo hi) ss
    → (ltb address lo || leb hi address) ≡ true
    → any_slot (covers address) ss ≡ false
unfolding covers
outside-uncovered lo hi address [] r out = refl
outside-uncovered lo hi address (s ∷ ss) r out =
    let rest = outside-uncovered lo hi address ss r.1 out in
    elim (Bool-cases s.active) [
      | inl on ↦ let (used, low, high) = r.0 on in rw (rest) (ground arith)
      | inr off ↦ rw (rest, off) (ground arith)
    ]

idle-uncovered : (address : ℕ) (ss : List Slot) → live ss ≡ 0 → any_slot (covers address) ss ≡ false
unfolding covers
idle-uncovered address [] e = refl
idle-uncovered address (s ∷ ss) e = elim (Bool-cases s.active) [
  | inl on ↦ absurd (ground arith)
  | inr off ↦ let rest = idle-uncovered address ss (ground arith) in rw (rest, off) (ground arith)
]

Sound-wants :
    (t : Traps) (locked : Bool) (address : ℕ)
    → Sound t
    → wants t locked address ≡ ((t.mutex && locked) && any_slot (covers address) t.slots)
unfolding wants any_active
Sound-wants t locked address v =
    let guard = ltb address t.bound_start || leb t.bound_end address in
    elim (Bool-cases (t.active_count == 0)) [
      | inl z ↦
          let none_live : live t.slots ≡ 0 = ground (arith, v.counted) in
          rw (z, idle-uncovered address t.slots none_live) (ground arith)
      | inr n ↦ elim (Bool-cases guard) [
        | inl out ↦
            let no_slot = outside-uncovered t.bound_start t.bound_end address t.slots v.ready out in
            rw (n, no_slot) (ground arith)
        | inr near ↦ rw n (ground arith)
      ]
    ]

-- After any calls, `wants` says exactly whether a live trap covers the address, if the mutex is
-- there and granted, and no otherwise: the count and the bounds that it tests first hide no trap.
pub wants-any_slot :
    (cs : List Call) (locked : Bool) (address : ℕ)
    → wants (after_calls idle cs) locked address ≡ (
        ((after_calls idle cs).mutex && locked)
        && any_slot (covers address) (after_calls idle cs).slots)
wants-any_slot cs locked address =
    Sound-wants (after_calls idle cs) locked address (after_calls-Sound cs)
