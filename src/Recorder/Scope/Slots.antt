-- ===== src/Recorder/Scope/Slots.antt =====
-- The slots of the range arrays: what fills them, and what a scan of them finds.
use pin_bridge.Common.{
  ℕ, suc, ◌+◌, ◌<◌, ◌≡◌, refl, ◌∙◌, List, [], ◌∷◌, ◌++◌, Bool, true, false, ◌&&◌, ltb, leb, ◌==◌,
  if◌then◌else◌, length, get_or, arith,
}
use pin_bridge.Common.{update}
use pin_bridge.Recorder.Scope.{Range, Scope, fill_slots, scan_ranges}

-- Whether one of the ranges contains the address.
abbrev pub covers : List Range → ℕ → Bool
covers [] address = false
covers ((lo, hi) ∷ ranges) address =
    if leb lo address && ltb address hi then true else covers ranges address

abbrev pub lists : List ℕ → ℕ → Bool
lists [] thread_id = false
lists (t ∷ threads) thread_id = if t == thread_id then true else lists threads thread_id

-- The slots from `index` on hold the ranges.
abbrev pub Stored : Scope → ℕ → List Range → Type 0
Stored s index [] = Unit {0}
Stored s index ((lo, hi) ∷ ranges) =
    (s.range_lo index ≡ lo) × (s.range_hi index ≡ hi) × Stored s (index + 1) ranges

pub scan_ranges-Stored :
    (s : Scope) (address index : ℕ) (ranges : List Range)
    → Stored s index ranges
    → scan_ranges s address (length ranges) index ≡ covers ranges address
unfolding scan_ranges
scan_ranges-Stored s address index [] h = refl
scan_ranges-Stored s address index ((lo, hi) ∷ ranges) h =
    rw (h.0, h.1, scan_ranges-Stored s address (index + 1) ranges h.2) refl

-- The slots hold the ranges if each of them does.
pub Stored-of_slots :
    (s : Scope) (index : ℕ) (ranges : List Range)
    → ((i : ℕ)
        → i < length ranges
        → (s.range_lo (index + i) ≡ (get_or ranges i (0, 0)).0)
          × (s.range_hi (index + i) ≡ (get_or ranges i (0, 0)).1))
    → Stored s index ranges
Stored-of_slots s index [] h = tt
Stored-of_slots s index ((lo, hi) ∷ ranges) h =
    let here : index + 0 ≡ index = omega arith in
    (
      (rw here at (h 0 (omega arith)).0),
      (rw here at (h 0 (omega arith)).1),
      Stored-of_slots s (index + 1) ranges (λ i lt.
          let next : index + suc i ≡ index + 1 + i = omega arith in
          (rw next at (h (suc i) (omega arith)).0, rw next at (h (suc i) (omega arith)).1)),
    )

pub Stored-same :
    (s t : Scope) (index : ℕ) (ranges : List Range)
    → ((i : ℕ)
        → i < index + length ranges
        → (t.range_lo i ≡ s.range_lo i) × (t.range_hi i ≡ s.range_hi i))
    → Stored s index ranges
    → Stored t index ranges
Stored-same s t index [] same h = tt
Stored-same s t index ((lo, hi) ∷ ranges) same h = (
  (same index (omega arith)).0 ∙ h.0,
  (same index (omega arith)).1 ∙ h.1,
  Stored-same s t (index + 1) ranges (λ i lt. same i (omega arith)) h.2,
)

pub Stored-append :
    (s : Scope) (index : ℕ) (xs ys : List Range)
    → Stored s index xs
    → Stored s (index + length xs) ys
    → Stored s index (xs ++ ys)
Stored-append s index [] ys hx hy = let e : index + 0 ≡ index = omega arith in rw e at hy
Stored-append s index ((lo, hi) ∷ xs) ys hx hy =
    let e : index + suc (length xs) ≡ index + 1 + length xs = omega arith in
    (hx.0, hx.1, Stored-append s (index + 1) xs ys hx.2 (rw e at hy))

-- The loop of `extend_ranges` leaves the slots below its start as they are.
pub fill_slots-below :
    (s : Scope) (index : ℕ) (ranges : List Range) (i : ℕ)
    → i < index
    → ((fill_slots s index ranges).range_lo i ≡ s.range_lo i)
      × ((fill_slots s index ranges).range_hi i ≡ s.range_hi i)
unfolding fill_slots
fill_slots-below s index [] i lt = (refl, refl)
fill_slots-below s index ((lo, hi) ∷ ranges) i lt =
    let rest =
      fill_slots-below
        (record s { range_lo = update s.range_lo index lo; range_hi = update s.range_hi index hi })
        (index + 1) ranges i (omega arith) in
    let a : update s.range_lo index lo i ≡ s.range_lo i = ground arith in
    let b : update s.range_hi index hi i ≡ s.range_hi i = ground arith in (rest.0 ∙ a, rest.1 ∙ b)

pub fill_slots-Stored :
    (s : Scope) (index : ℕ) (ranges : List Range) → Stored (fill_slots s index ranges) index ranges
unfolding fill_slots
fill_slots-Stored s index [] = tt
fill_slots-Stored s index ((lo, hi) ∷ ranges) =
    let s' : Scope = record s {
      range_lo = update s.range_lo index lo;
      range_hi = update s.range_hi index hi;
    } in
    let below = fill_slots-below s' (index + 1) ranges index (omega arith) in
    let a : update s.range_lo index lo index ≡ lo = ground arith in
    let b : update s.range_hi index hi index ≡ hi = ground arith in
    (below.0 ∙ a, below.1 ∙ b, fill_slots-Stored s' (index + 1) ranges)

pub fill_slots-count :
    (s : Scope) (index : ℕ) (ranges : List Range)
    → (fill_slots s index ranges).range_count ≡ s.range_count
unfolding fill_slots
fill_slots-count s index [] = refl
fill_slots-count s index ((lo, hi) ∷ ranges) =
    fill_slots-count
      (record s { range_lo = update s.range_lo index lo; range_hi = update s.range_hi index hi })
      (index + 1) ranges
