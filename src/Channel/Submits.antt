-- ===== src/Channel/Submits.antt =====
-- What a lane holds and counts after any sequence of submissions.
use pin_bridge.Common.{
  ℕ, zero, suc, ◌+◌, ◌-◌, ◌≤◌, ◌<◌, ◌≡◌, refl, List, [], ◌∷◌, ◌++◌, true, false, none, some, arith,
  length, length-append, append-nil, append_assoc, max, take, drop, u64_mod, ◌↔◌, ◌⊎◌, inl, inr,
  Bool-cases, returns,
}
use native.Mathlib.Nat.{add_assoc}
use pin_bridge.Event.{Event}
use pin_bridge.Ring.Holds.{number, Holds, new-Holds, push-Holds}
use pin_bridge.Ring.Paging.{page_into_lem}
use pin_bridge.Channel.{
  Channel, TryLock, failed, busy, acquired, new, init, submit, total, dropped, try_page, lock_spin,
  spin_limit,
}

-- The submissions in order, each with what the mutex answered.
abbrev pub Submissions : Type 0
Submissions = List (Event × TryLock)

-- The events that got the lock.
abbrev pub landed : Submissions → List Event
landed [] = []
landed ((e, acquired) ∷ s) = e ∷ landed s
landed ((e, _) ∷ s) = landed s

abbrev pub refused : Submissions → ℕ
refused [] = 0
refused ((e, acquired) ∷ s) = refused s
refused ((e, _) ∷ s) = suc (refused s)

pub submit_all : ℕ → Channel → Submissions → Channel
submit_all capacity c [] = c
submit_all capacity c ((e, lock) ∷ s) = submit_all capacity (submit capacity c e lock) s

-- A lane with its mutex, after `log` has landed and `lost` submissions were refused.
pub record Carries (capacity : ℕ) (c : Channel) (log : List Event) (lost : ℕ) : Type 0 where
  pub ready : c.mutex ≡ true
  pub holds : Holds capacity c.ring log
  pub edge : c.retained_total ≡ length log
  pub counted : c.submitted ≡ length log + lost

init-Carries : (capacity : ℕ) → Carries capacity (init capacity (new capacity) true) [] 0
unfolding init new
init-Carries capacity = record {
  ready = refl;
  holds = new-Holds capacity;
  edge = refl;
  counted = refl;
}

submit-Carries :
    (capacity : ℕ) (c : Channel) (log : List Event) (lost : ℕ) (e : Event) (lock : TryLock)
    → 0 < capacity
    → length log + lost + 1 < u64_mod
    → Carries capacity c log lost
    → Carries capacity
        (submit capacity c e lock)
        (log ++ landed ((e, lock) ∷ []))
        (lost + refused ((e, lock) ∷ []))
unfolding submit
submit-Carries capacity c log lost e acquired pos small v =
    let (h, n) = push-Holds capacity c.ring log e pos (omega arith) v.holds in
    let size = length-append log (e ∷ []) in
    rw v.ready
      (record { ready = refl; holds = h; edge = omega arith; counted = omega (arith, v.counted) })
submit-Carries capacity c log lost e failed pos small v =
    rw (v.ready, append-nil log)
      (record { ready = refl; holds = v.holds; edge = v.edge; counted = omega (arith, v.counted) })
submit-Carries capacity c log lost e busy pos small v =
    rw (v.ready, append-nil log)
      (record { ready = refl; holds = v.holds; edge = v.edge; counted = omega (arith, v.counted) })

landed_and_refused :
    (x : Event) (lock : TryLock) → length (landed ((x, lock) ∷ [])) + refused ((x, lock) ∷ []) ≡ 1
landed_and_refused x failed = refl
landed_and_refused x busy = refl
landed_and_refused x acquired = refl

pub landed-cons :
    (x : Event) (lock : TryLock) (s : Submissions)
    → landed ((x, lock) ∷ s) ≡ landed ((x, lock) ∷ []) ++ landed s
landed-cons x failed s = refl
landed-cons x busy s = refl
landed-cons x acquired s = refl

refused-cons :
    (x : Event) (lock : TryLock) (s : Submissions)
    → refused ((x, lock) ∷ s) ≡ refused ((x, lock) ∷ []) + refused s
refused-cons x failed s = omega arith
refused-cons x busy s = omega arith
refused-cons x acquired s = omega arith

submit_all-Carries :
    (capacity : ℕ) (s : Submissions) (c : Channel) (log : List Event) (lost : ℕ)
    → 0 < capacity
    → length log + lost + length s < u64_mod
    → Carries capacity c log lost
    → Carries capacity (submit_all capacity c s) (log ++ landed s) (lost + refused s)
unfolding submit_all
submit_all-Carries capacity [] c log lost pos small v =
    let e : lost + 0 ≡ lost = omega arith in rw (append-nil log, e) v
submit_all-Carries capacity ((x, lock) ∷ s) c log lost pos small v =
    let c' = submit capacity c x lock in
    let log' = log ++ landed ((x, lock) ∷ []) in
    let lost' = lost + refused ((x, lock) ∷ []) in
    let one = landed_and_refused x lock in
    let size = length-append log (landed ((x, lock) ∷ [])) in
    let ih =
      submit_all-Carries capacity s c' log' lost' pos (omega arith)
        (submit-Carries capacity c log lost x lock pos (omega arith) v) in
    rw
      (
        landed-cons x lock s,
        ← append_assoc log (landed ((x, lock) ∷ [])) (landed s),
        refused-cons x lock s,
        ← add_assoc lost (refused ((x, lock) ∷ [])) (refused s),
      )
      ih

-- Whatever the mutex answers to each of the submissions to a fresh lane, the ring holds exactly
-- the events that got the lock, in order, with the sequence numbers from 1; `total` counts them,
-- and `dropped` counts exactly the others.
pub submit_all_lem :
    (capacity : ℕ) (s : Submissions)
    → 0 < capacity
    → length s < u64_mod
    → let c = submit_all capacity (init capacity (new capacity) true) s in
      Holds capacity c.ring (landed s)
      × (total capacity c ≡ length (landed s))
      × (dropped capacity c ≡ refused s)
unfolding total dropped
submit_all_lem capacity s pos small =
    let v = submit_all-Carries capacity s _ [] 0 pos (omega arith) (init-Carries capacity) in
    (v.holds, v.edge, omega (arith, v.edge, v.counted))

abbrev Obtained : ℕ → (ℕ → TryLock) → Type 0
Obtained rounds answers =
    (k : ℕ) × (k < rounds) × (answers k ≡ acquired) × ((j : ℕ) → j < k → answers j ≡ busy)

busy_before :
    (answers : ℕ → TryLock) (k : ℕ)
    → answers 0 ≡ busy
    → ((j : ℕ) → j < k → answers (suc j) ≡ busy)
    → (j : ℕ) → j < suc k
    → answers j ≡ busy
busy_before answers k first later zero h = first
busy_before answers k first later (suc j) h = later j (omega arith)

spin_step :
    (rounds : ℕ) (answers : ℕ → TryLock) (a : TryLock)
    → answers 0 ≡ a
    → lock_spin (suc rounds) answers ≡ true
    → (lock_spin rounds (λ i. answers (suc i)) ≡ true → Obtained rounds (λ i. answers (suc i)))
    → Obtained (suc rounds) answers
unfolding lock_spin
spin_step rounds answers failed e h ih = ground arith
spin_step rounds answers acquired e h ih = (0, omega arith, e, λ j lt. absurd (omega arith))
spin_step rounds answers busy e h ih =
    let (k, lt, got, before) = ih (rw (e, lock_spin) at h) in
    (suc k, omega arith, got, busy_before answers k e before)

spin_true :
    (rounds : ℕ) (answers : ℕ → TryLock) → lock_spin rounds answers ≡ true → Obtained rounds answers
unfolding lock_spin
spin_true zero answers h = cc
spin_true (suc rounds) answers h =
    spin_step rounds answers (answers 0) refl h (spin_true rounds (λ i. answers (suc i)))

true_spin :
    (rounds : ℕ) (answers : ℕ → TryLock) → Obtained rounds answers → lock_spin rounds answers ≡ true
unfolding lock_spin
true_spin zero answers (k, lt, got, before) = absurd (omega arith)
true_spin (suc rounds) answers (zero, lt, got, before) = rw (got, lock_spin)
true_spin (suc rounds) answers (suc k, lt, got, before) =
    rw (before 0 (omega arith), lock_spin)
      (true_spin rounds (λ i. answers (suc i))
        (k, omega arith, got, λ j h. before (suc j) (omega arith)))

-- The mutex is obtained exactly when it answers `acquired` within the rounds, and `busy` before.
pub lock_spin_iff :
    (rounds : ℕ) (answers : ℕ → TryLock)
    → (lock_spin rounds answers ≡ true)
      ↔ ((k : ℕ) × (k < rounds) × (answers k ≡ acquired) × ((j : ℕ) → j < k → answers j ≡ busy))
unfolding lock_spin
lock_spin_iff rounds answers = (spin_true rounds answers, true_spin rounds answers)

pub length-landed : (s : Submissions) → length (landed s) ≤ length s
length-landed [] = omega arith
length-landed ((x, failed) ∷ s) = omega (arith, length-landed s)
length-landed ((x, busy) ∷ s) = omega (arith, length-landed s)
length-landed ((x, acquired) ∷ s) = omega (arith, length-landed s)

try_page-Carries :
    (capacity : ℕ) (c : Channel) (log : List Event) (lost after limit : ℕ) (out : List Event)
    (answers : ℕ → TryLock)
    → max after (length log) + limit + 1 < u64_mod
    → lock_spin spin_limit answers ≡ true
    → Carries capacity c log lost
    → try_page capacity c after limit out answers
      ≡ returns (
        some ((length log - capacity) - after, length log),
        out ++ take limit (drop (max after (length log - capacity)) (number 0 log)),
      )
unfolding try_page
try_page-Carries capacity c log lost after limit out answers small got v = rw (
  v.ready,
  got,
  page_into_lem capacity c.ring log after limit out small v.holds,
  v.holds.total_eq,
)

try_page_busy :
    (capacity : ℕ) (c : Channel) (after limit : ℕ) (out : List Event) (answers : ℕ → TryLock)
    → lock_spin spin_limit answers ≡ false
    → try_page capacity c after limit out answers ≡ returns (none, out)
unfolding try_page
try_page_busy capacity c after limit out answers missed = elim (Bool-cases c.mutex) [
  | inl ready ↦ rw (ready, missed)
  | inr absent ↦ rw absent
]

-- A reader of a fresh lane after any submissions: with the lock it gets the events behind its
-- cursor, how many of them were overwritten, and the number of the newest one; without the lock
-- its buffer is as it was.
pub try_page-submit_all :
    (capacity after limit : ℕ) (s : Submissions) (out : List Event) (answers : ℕ → TryLock)
    → 0 < capacity
    → max after (length s) + limit + 1 < u64_mod
    → let c = submit_all capacity (init capacity (new capacity) true) s in
      let log = landed s in
      ((lock_spin spin_limit answers ≡ true)
        × (try_page capacity c after limit out answers
            ≡ returns (
              some ((length log - capacity) - after, length log),
              out ++ take limit (drop (max after (length log - capacity)) (number 0 log)),
            )))
      ⊎ ((lock_spin spin_limit answers ≡ false)
          × (try_page capacity c after limit out answers ≡ returns (none, out)))
try_page-submit_all capacity after limit s out answers pos small =
    let v = submit_all-Carries capacity s _ [] 0 pos (omega arith) (init-Carries capacity) in
    let fits = length-landed s in
    elim (Bool-cases (lock_spin spin_limit answers)) [
      | inl got ↦ inl (
        got,
        try_page-Carries capacity _ (landed s) _ after limit out answers (omega arith) got v,
      )
      | inr missed ↦ inr (missed, try_page_busy capacity _ after limit out answers missed)
    ]
