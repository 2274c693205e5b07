-- ===== src/Stepper/Suspension.antt =====
-- A suspension of the application frees the thread that waits in the park slot.
use pin_bridge.Common.{
  by_cases, ℕ, ◌≡◌, refl, sym, subst, ap, ◌∙◌, ◌⊎◌, inl, inr, List, [], ◌∷◌, Bool, true, false,
  ◌&&◌, ◌||◌, not, arith, keep, ◌==◌, ℕ_discrete,
}
use pin_bridge.Stepper.{Stepper, release, begin_suspend, end_suspend, park_slot, park_current, wake}
use pin_bridge.Stepper.Parking.{
  Parking, ParkCall, parks, releases, begins_suspend, ends_suspend, wakes, waits, entered, left,
  after_call, after_calls, Orderly, AllOrderly, Placed, Served,
}

release-free : (s : Stepper) → s.parked ≡ false → release s ≡ s
unfolding release
release-free s e =
    by_cases (λ r. r ≡ s) s.parked _ _ (λ q. absurd (ground (arith, e, q))) (λ q. refl)

release-parked :
    (s : Stepper)
    → s.has_semaphore ≡ true
    → s.parked ≡ true
    → release s ≡ record s { parked = false; semaphore = true }
unfolding release
release-parked s m e =
    let up : (s.semaphore || s.has_semaphore) ≡ true = ground (arith, m) in
    by_cases (λ r. r ≡ record s { parked = false; semaphore = true }) s.parked _ _
      (λ q i. record s { parked = false; semaphore = up i }) (λ q. absurd (ground (arith, e, q)))

-- Whoever is parked is released.
released-Served :
    (p : Parking)
    → p.stepper.has_mutex ≡ true
    → p.stepper.has_semaphore ≡ true
    → Placed p
    → Served (record p { stepper = release p.stepper })
released-Served p m s (inl (none_waits, free, low)) =
    subst (λ (r : Stepper). Served (record p { stepper = r })) (sym (release-free p.stepper free))
      (record { mutex = m; semaphore = s; clear = λ q. free; placed = inl (none_waits, free, low) })
released-Served p m s (inr (t, one, inl (parked, low))) =
    subst (λ (r : Stepper). Served (record p { stepper = r }))
      (sym (release-parked p.stepper s parked))
      (record {
        mutex = m;
        semaphore = s;
        clear = λ q. refl;
        placed = inr (t, one, inr (refl, refl));
      })
released-Served p m s (inr (t, one, inr (free, up))) =
    subst (λ (r : Stepper). Served (record p { stepper = r })) (sym (release-free p.stepper free))
      (record {
        mutex = m;
        semaphore = s;
        clear = λ q. free;
        placed = inr (t, one, inr (free, up));
      })

low_if_empty : (p : Parking) → p.waiting ≡ [] → Placed p → p.stepper.semaphore ≡ false
low_if_empty p e (inl (none_waits, free, low)) = low
low_if_empty p e (inr (t, one, rest)) = absurd (cc (e, one))

wake-low : (s : Stepper) → s.has_semaphore ≡ true → s.semaphore ≡ false → wake s ≡ (s, false)
unfolding wake
wake-low s m low =
    by_cases (λ r. r ≡ (s, false)) s.has_semaphore _ _
      (λ q.
        by_cases (λ r. r ≡ (s, false)) s.semaphore _ _ (λ u. absurd (ground (arith, low, u)))
          (λ u. refl))
      (λ q. absurd (ground (arith, m, q)))

wake-up :
    (s : Stepper)
    → s.has_semaphore ≡ true
    → s.semaphore ≡ true
    → wake s ≡ (record s { semaphore = false }, true)
unfolding wake
wake-up s m up =
    by_cases (λ r. r ≡ (record s { semaphore = false }, true)) s.has_semaphore _ _
      (λ q.
        by_cases (λ r. r ≡ (record s { semaphore = false }, true)) s.semaphore _ _ (λ u. refl)
          (λ u. absurd (ground (arith, up, u))))
      (λ q. absurd (ground (arith, m, q)))

-- The one thread that waits leaves if the semaphore is set, and stays if it is not.
leaves :
    (p : Parking) (t : ℕ)
    → p.stepper.has_semaphore ≡ true
    → p.waiting ≡ t ∷ []
    → p.stepper.semaphore ≡ true
    → after_call p (wakes t)
      ≡ record { stepper = record p.stepper { semaphore = false }; waiting = [] }
unfolding after_call waits left
leaves p t m one up =
    let same : (t == t) ≡ true = ground arith in
    let here : waits t p.waiting ≡ true = ap (waits t) one ∙ rw same refl in
    let gone : keep (λ u. not (u == t)) p.waiting ≡ [] =
      ap (keep (λ u. not (u == t))) one ∙ rw same refl in
    rw here (
      ap (left t p.waiting) (wake-up p.stepper m up)
      ∙ ap (λ us. record { stepper = record p.stepper { semaphore = false }; waiting = us }) gone)

stays : (p : Parking) (t : ℕ) → waits t p.waiting ≡ false → after_call p (wakes t) ≡ p
unfolding after_call
stays p t out = rw out refl

blocked :
    (p : Parking) (t : ℕ)
    → p.stepper.has_semaphore ≡ true
    → p.waiting ≡ t ∷ []
    → p.stepper.semaphore ≡ false
    → after_call p (wakes t) ≡ p
unfolding after_call waits left
blocked p t m one low =
    let same : (t == t) ≡ true = ground arith in
    let here : waits t p.waiting ≡ true = ap (waits t) one ∙ rw same refl in
    rw here (ap (left t p.waiting) (wake-low p.stepper m low))

parks-Served :
    (p : Parking) (t address : ℕ) (locked : Bool)
    → (p.stepper.suspending ≡ false → p.stepper.parked ≡ false → p.waiting ≡ [])
    → Served p
    → Served (after_call p (parks t address locked))
unfolding after_call park_current park_slot entered
parks-Served p t address locked orderly v =
    let Kept : Stepper × Bool → Type 0 = λ r. Served (entered t p.waiting r) in
    by_cases Kept p.stepper.has_mutex _ _
      (λ _.
        by_cases Kept (locked && (not p.stepper.suspending && not p.stepper.parked)) _ _
          (λ granted.
            let free : p.stepper.parked ≡ false = ground arith in
            let runs : p.stepper.suspending ≡ false = ground arith in
            let empty : p.waiting ≡ [] = orderly runs free in
            record {
              mutex = v.mutex;
              semaphore = v.semaphore;
              clear = λ q. cc;
              placed = inr (t, ap (◌∷◌ t) empty, inl (refl, low_if_empty p empty v.placed));
            })
          (λ _. v))
      (λ gone. absurd (ground (arith, v.mutex, gone)))

wakes-Served : (p : Parking) (t : ℕ) → Served p → Served (after_call p (wakes t))
unfolding after_call wake left waits
wakes-Served p t v = elim (v.placed) [
  | inl (none_waits, free, low) ↦ subst Served (sym (stays p t (ap (waits t) none_waits))) v
  | inr (u, one, state) ↦ elim (ℕ_discrete u t) [
    | no ne ↦
        let other : (u == t) ≡ false = ground arith in
        subst Served (sym (stays p t (ap (waits t) one ∙ rw other refl))) v
    | yes e ↦
        let mine : p.waiting ≡ t ∷ [] = one ∙ ap (λ x. x ∷ []) e in
        elim state [
          | inl (parked, low) ↦ subst Served (sym (blocked p t v.semaphore mine low)) v
          | inr (free, up) ↦ subst Served (sym (leaves p t v.semaphore mine up)) (record {
            mutex = v.mutex;
            semaphore = v.semaphore;
            clear = v.clear;
            placed = inl (refl, free, refl);
          })
        ]
  ]
]

after_call-Served : (p : Parking) (c : ParkCall) → Orderly p c → Served p → Served (after_call p c)
unfolding after_call begin_suspend end_suspend
after_call-Served p (parks t address locked) orderly v = parks-Served p t address locked orderly v
after_call-Served p releases orderly v = released-Served p v.mutex v.semaphore v.placed
after_call-Served p begins_suspend orderly v =
    released-Served (record p { stepper = record p.stepper { suspending = true } }) v.mutex
      v.semaphore v.placed
after_call-Served p ends_suspend orderly v = record {
  mutex = v.mutex;
  semaphore = v.semaphore;
  clear = λ q. cc;
  placed = v.placed;
}
after_call-Served p (wakes t) orderly v = wakes-Served p t v

after_calls-Served :
    (p : Parking) (calls : List ParkCall)
    → AllOrderly p calls
    → Served p
    → Served (after_calls p calls)
unfolding after_calls
after_calls-Served p [] orderly v = v
after_calls-Served p (c ∷ calls) orderly v =
    after_calls-Served (after_call p c) calls orderly.1 (after_call-Served p c orderly.0 v)

park_current-suspending :
    (s : Stepper) (t address : ℕ) (locked : Bool)
    → s.has_mutex ≡ true
    → s.suspending ≡ true
    → park_current s t address locked ≡ (s, false)
unfolding park_current
park_current-suspending s t address locked m e =
    by_cases (λ r. r ≡ (s, false)) s.has_mutex _ _
      (λ _.
        by_cases (λ r. r ≡ (s, false)) (locked && (not s.suspending && not s.parked)) _ _
          (λ granted. absurd (ground (arith, e, granted))) (λ _. refl))
      (λ gone. absurd (ground (arith, m, gone)))

-- With the park mutex and the semaphore in place, after any calls in which, outside a suspension, a
-- thread comes to a free slot only after the one released from it has left: while the application
-- is being suspended no thread parks, and either no thread waits in the slot, or one does and its
-- wait ends.
pub suspension_frees :
    (p : Parking) (calls : List ParkCall)
    → Served p
    → AllOrderly p calls
    → (after_calls p calls).stepper.suspending ≡ true
    → ((t address : ℕ) (locked : Bool)
        → park_current (after_calls p calls).stepper t address locked
          ≡ ((after_calls p calls).stepper, false))
      × (((after_calls p calls).waiting ≡ [])
          ⊎ ((t : ℕ) × ((after_calls p calls).waiting ≡ t ∷ [])
              × ((after_call (after_calls p calls) (wakes t)).waiting ≡ [])))
suspension_frees p calls v orderly suspended =
    let q = after_calls p calls in
    let w : Served q = after_calls-Served p calls orderly v in
    (
      (λ t address locked. park_current-suspending q.stepper t address locked w.mutex suspended),
      elim (w.placed) [
        | inl (none_waits, free, low) ↦ inl none_waits
        | inr (t, one, inl (parked, low)) ↦
            let free : q.stepper.parked ≡ false = w.clear suspended in
            absurd (ground (arith, free, parked))
        | inr (t, one, inr (free, up)) ↦
            inr (t, one, ap (λ (r : Parking). r.waiting) (leaves q t w.semaphore one up))
      ],
    )
