-- ===== src/Trap/Stops.antt =====
-- An execution inside a trap: who stops, and what is published of it.
use pin_bridge.Common.{
  All, ℕ, ◌<◌, ◌≡◌, refl, sym, ap, ap₂, ◌∙◌, List, [], ◌∷◌, map, Bool, true, false, not, ◌&&◌, ◌||◌,
  ◌⊎◌, inl, inr, Bool-cases, by_cases, arith, keep, ◌==◌, if◌then◌else◌,
}
use pin_bridge.Event.{Event}
use pin_bridge.Ring.{add_u64}
use pin_bridge.Trap.{
  Slot, Traps, idle, some_bit, matches, any_active, any_slot, visit, visit_all, claimed, on_execute,
  marked, trap_event, publish_stopped,
}
use pin_bridge.Trap.Claims.{BeforeResume, after_calls-claimed}
use pin_bridge.Trap.Sound.{Sound, Call, after_calls, after_calls-Sound, live}

-- A slot after it has stopped a thread: one more hit, and a one-shot trap is off.
unfoldable pub hit : Slot → Slot
hit s = record s { active = s.active && not s.one_shot; hits = add_u64 s.hits 1 }

-- The outcome of one round by what the slot answers.
outcome :
    (m once : Bool) (s : Slot)
    → once ≡ s.one_shot
    → let r : Slot × Bool × Bool =
        if not m
        then (s, false, false)
        else if once
        then (record s { active = false; hits = add_u64 s.hits 1 }, true, true)
        else (record s { hits = add_u64 s.hits 1 }, true, false) in
      (r.0 ≡ (if m then hit s else s)) × (r.1 ≡ m)
unfolding hit
outcome false once s e = (refl, refl)
outcome true true s e =
    let off : false ≡ (s.active && not s.one_shot) = ground arith in
    ((λ i. record s { active = off i; hits = add_u64 s.hits 1 }), refl)
outcome true false s e =
    let on : s.active ≡ (s.active && not s.one_shot) = ground arith in
    ((λ i. record s { active = on i; hits = add_u64 s.hits 1 }), refl)

module _ (address thread_id : ℕ) where
  abbrev pub matched : Slot → Bool
  matched s = matches s address thread_id

  abbrev visited : Slot → Slot
  visited s = if matched s then hit s else s

  visit-visited :
      (s : Slot)
      → ((visit address thread_id s).0 ≡ visited s) × ((visit address thread_id s).1 ≡ matched s)
  unfolding visit hit
  visit-visited s = outcome (matched s) s.one_shot s refl

  visit_all-map :
      (ss : List Slot) (count : ℕ)
      → ((visit_all address thread_id count ss).0 ≡ map visited ss)
        × ((visit_all address thread_id count ss).1 ≡ map matched ss)
  unfolding visit_all
  visit_all-map [] count = (refl, refl)
  visit_all-map (s ∷ ss) count =
      let (a, b) = visit-visited s in
      let (before, bits) = visit_all-map ss _ in (ap₂ ◌∷◌ a before, ap₂ ◌∷◌ b bits)

  some_bit-map : (ss : List Slot) → some_bit (map matched ss) ≡ any_slot matched ss
  some_bit-map [] = refl
  some_bit-map (s ∷ ss) = ap (λ b. matched s || b) (some_bit-map ss)

  marked-map :
      (f : Slot → Event) (ss : List Slot)
      → marked f (map visited ss) (map matched ss) ≡ map (λ s. f (hit s)) (keep matched ss)
  unfolding marked
  marked-map f [] = refl
  marked-map f (s ∷ ss) = elim (Bool-cases (matched s)) [
    | inl m ↦ rw m (ap (◌∷◌ (f (hit s))) (marked-map f ss))
    | inr n ↦ rw n (marked-map f ss)
  ]

  visit_all-unmatched :
      (ss : List Slot) (count : ℕ)
      → any_slot matched ss ≡ false
      → ((visit_all address thread_id count ss).0 ≡ ss)
        × ((visit_all address thread_id count ss).2 ≡ count)
  unfolding visit_all visit
  visit_all-unmatched [] count none = (refl, refl)
  visit_all-unmatched (s ∷ ss) count none =
      let off : matched s ≡ false = ground arith in
      let (a, b) = visit_all-unmatched ss count (ground arith) in rw off (ap (◌∷◌ s) a, b)

  matched-live : (ss : List Slot) → any_slot matched ss ≡ true → 0 < live ss
  unfolding matches
  matched-live [] m = absurd (ground arith)
  matched-live (s ∷ ss) m = elim (Bool-cases (matched s)) [
    | inl h ↦ ground arith
    | inr n ↦ let rest = matched-live ss (ground arith) in omega (arith, rest)
  ]

  -- What `on_execute` answers and leaves, by whether a trap matches.
  on_execute-unmatched :
      (t : Traps)
      → t.stop_claimed ≡ false
      → any_slot matched t.slots ≡ false
      → on_execute t address thread_id ≡ (t, false)
  unfolding on_execute claimed
  on_execute-unmatched t free none =
      let (slots, count) = visit_all-unmatched t.slots t.active_count none in
      let (_, bits) = visit_all-map t.slots t.active_count in
      by_cases (λ r. r ≡ (t, false)) (not (any_active t) || t.stop_claimed) _ _ (λ q. refl)
        (λ q.
          let no_bit = ap some_bit bits ∙ some_bit-map t.slots ∙ none in
          rw no_bit λ i. (
            record t { slots = slots i; active_count = count i; stop_claimed = sym free i },
            false,
          ))

  -- What is left of a table after a stop.
  record Stopped (t t' : Traps) : Type 0 where
    slots : t'.slots ≡ map visited t.slots
    mask : t'.pending_mask ≡ map matched t.slots
    mutex : t'.mutex ≡ t.mutex
    claim : t'.stop_claimed ≡ true
    tid : t'.pending_tid ≡ thread_id
    place : t'.pending_address ≡ address

  on_execute-matched :
      (t : Traps)
      → Sound t
      → t.stop_claimed ≡ false
      → any_slot matched t.slots ≡ true
      → ((on_execute t address thread_id).1 ≡ true) × Stopped t (on_execute t address thread_id).0
  unfolding on_execute claimed any_active
  on_execute-matched t v free some_slot =
      let (slots, bits) = visit_all-map t.slots t.active_count in
      let up = matched-live t.slots some_slot in
      let counted : (t.active_count == 0) ≡ false = ground (arith, v.counted) in
      let a_bit = ap some_bit bits ∙ some_bit-map t.slots ∙ some_slot in
      rw (counted, free, a_bit)
        (
          refl,
          record {
            slots = slots;
            mask = bits;
            mutex = refl;
            claim = refl;
            tid = refl;
            place = refl;
          },
        )

  -- While a stop is claimed no other execution stops.
  claimed-quiet :
      (t : Traps) (address' thread_id' : ℕ)
      → t.stop_claimed ≡ true
      → on_execute t address' thread_id' ≡ (t, false)
  unfolding on_execute
  claimed-quiet t address' thread_id' e =
      by_cases (λ r. r ≡ (t, false)) (not (any_active t) || t.stop_claimed) _ _ (λ q. refl)
        (λ q. absurd (ground arith))

-- The event of a slot that has stopped a thread at an address.
unfoldable pub stop_event : ℕ → ℕ → ℕ → Slot → Event
unfolding trap_event
stop_event address thread_id generation s =
    trap_event (record idle { pending_tid = thread_id; pending_address = address }) generation s

published-marked :
    (t : Traps) (address thread_id generation : ℕ) (slots : List Slot) (bits : List Bool)
    → t.pending_tid ≡ thread_id
    → t.pending_address ≡ address
    → marked (trap_event t generation) slots bits
      ≡ marked (stop_event address thread_id generation) slots bits
unfolding trap_event stop_event
published-marked t address thread_id generation slots bits e e' = λ i.
    marked (trap_event (record t { pending_tid = e i; pending_address = e' i }) generation) slots
      bits

-- After any calls that leave no stop claimed: an execution that no live trap matches changes nothing
-- and goes on. One that some trap matches stops the thread; no other execution stops after any
-- further calls that do not resume; and where the breaker publishes the stop before any other
-- call, it publishes one event for each matching trap, in the order of the table, with its
-- range and a count of hits that is one higher.
pub stop-published :
    (cs between : List Call) (address thread_id generation : ℕ)
    → (after_calls idle cs).stop_claimed ≡ false
    → (after_calls idle cs).mutex ≡ true
    → All BeforeResume between
    → ((any_slot (matched address thread_id) (after_calls idle cs).slots ≡ false)
        × (on_execute (after_calls idle cs) address thread_id ≡ (after_calls idle cs, false)))
      ⊎ ((any_slot (matched address thread_id) (after_calls idle cs).slots ≡ true)
          × ((on_execute (after_calls idle cs) address thread_id).1 ≡ true)
          × ((address' thread_id' : ℕ)
              → on_execute
                  (after_calls (on_execute (after_calls idle cs) address thread_id).0 between)
                  address'
                  thread_id'
                ≡ (
                  after_calls (on_execute (after_calls idle cs) address thread_id).0 between,
                  false,
                ))
          × ((publish_stopped
                (on_execute (after_calls idle cs) address thread_id).0
                true
                generation).1
              ≡ map
                  (λ s. stop_event address thread_id generation (hit s))
                  (keep (matched address thread_id) (after_calls idle cs).slots)))
unfolding publish_stopped
stop-published cs between address thread_id generation free there running =
    let t = after_calls idle cs in
    let stopped = on_execute t address thread_id in
    elim (Bool-cases (any_slot (matched address thread_id) t.slots)) [
      | inl some_slot ↦
          let (stops, after) =
            on_execute-matched address thread_id t (after_calls-Sound cs) free some_slot in
          let a_bit : some_bit stopped.0.pending_mask ≡ true =
            ap some_bit after.mask ∙ some_bit-map address thread_id t.slots ∙ some_slot in
          let here : stopped.0.mutex ≡ true = after.mutex ∙ there in
          inr (
            some_slot,
            stops,
            (λ address' thread_id'.
                claimed-quiet address thread_id (after_calls stopped.0 between) address' thread_id'
                  (after_calls-claimed stopped.0 between after.claim running)),
            by_cases
                (λ (r : Traps × List Event).
                  r.1
                  ≡ map (λ s. stop_event address thread_id generation (hit s))
                      (keep (matched address thread_id) t.slots))
                (not (some_bit stopped.0.pending_mask) || not (stopped.0.mutex && true)) _ _
                (λ q. absurd (ground arith))
                (λ q.
                  published-marked stopped.0 address thread_id generation stopped.0.slots
                    stopped.0.pending_mask after.tid after.place
                  ∙ ap₂ (marked (stop_event address thread_id generation)) after.slots after.mask
                  ∙ marked-map address thread_id (stop_event address thread_id generation) t.slots),
          )
      | inr no_slot ↦ inl (no_slot, on_execute-unmatched address thread_id t free no_slot)
    ]
