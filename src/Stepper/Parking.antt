-- ===== src/Stepper/Parking.antt =====
-- The park slot with the threads that wait in it, and what a suspension of the application does to
-- them.
use pin_bridge.Common.{
  ℕ, ◌≡◌, ◌⊎◌, List, [], ◌∷◌, Bool, true, false, ◌||◌, not, keep, ◌==◌, if◌then◌else◌,
}
use pin_bridge.Stepper.{Stepper, release, begin_suspend, end_suspend, park_current, wake}

-- The statics, and the threads inside the wait of `park_current`.
pub record Parking : Type 0 where
  pub stepper : Stepper
  pub waiting : List ℕ

-- The calls that reach the park slot, in the order in which they get its mutex, and the ends of
-- the waits.
pub data ParkCall : Type 0 where
  parks : ℕ → ℕ → Bool → ParkCall
  releases begins_suspend ends_suspend : ParkCall
  wakes : ℕ → ParkCall

unfoldable pub waits : ℕ → List ℕ → Bool
waits t [] = false
waits t (u ∷ us) = (u == t) || waits t us

-- A thread that gets the slot waits.
unfoldable pub entered : ℕ → List ℕ → Stepper × Bool → Parking
entered t us (s, granted) = record { stepper = s; waiting = if granted then t ∷ us else us }

-- A thread whose wait ends leaves.
unfoldable pub left : ℕ → List ℕ → Stepper × Bool → Parking
left t us (s, woken) = record {
  stepper = s;
  waiting = if woken then keep (λ u. not (u == t)) us else us;
}

unfoldable pub after_call : Parking → ParkCall → Parking
unfolding entered left waits
after_call p (parks t address locked) =
    entered t p.waiting (park_current p.stepper t address locked)
after_call p releases = record p { stepper = release p.stepper }
after_call p begins_suspend = record p { stepper = begin_suspend p.stepper }
after_call p ends_suspend = record p { stepper = end_suspend p.stepper }
after_call p (wakes t) = if waits t p.waiting then left t p.waiting (wake p.stepper) else p

unfoldable pub after_calls : Parking → List ParkCall → Parking
after_calls p [] = p
after_calls p (c ∷ calls) = after_calls (after_call p c) calls

-- Where no suspension is in flight, a thread comes to a free slot only after the one that was
-- released from it has left.
abbrev pub Orderly : Parking → ParkCall → Type 0
Orderly p (parks t address locked) =
    p.stepper.suspending ≡ false → p.stepper.parked ≡ false → p.waiting ≡ []
Orderly p _ = Unit

abbrev pub AllOrderly : Parking → List ParkCall → Type 0
AllOrderly p [] = Unit
AllOrderly p (c ∷ calls) = Orderly p c × AllOrderly (after_call p c) calls

-- Nobody waits and the semaphore is clear; or one thread waits, parked under a clear semaphore or
-- released by a set one.
abbrev pub Placed : Parking → Type 0
Placed p =
    ((p.waiting ≡ []) × (p.stepper.parked ≡ false) × (p.stepper.semaphore ≡ false))
    ⊎ ((t : ℕ) × (p.waiting ≡ t ∷ [])
        × (((p.stepper.parked ≡ true) × (p.stepper.semaphore ≡ false))
            ⊎ ((p.stepper.parked ≡ false) × (p.stepper.semaphore ≡ true))))

pub record Served (p : Parking) : Type 0 where
  pub mutex : p.stepper.has_mutex ≡ true
  pub semaphore : p.stepper.has_semaphore ≡ true
  pub clear : p.stepper.suspending ≡ true → p.stepper.parked ≡ false
  pub placed : Placed p
