-- ===== src/Recorder/Protocol/Submit.antt =====
-- `submit` and `try_reserve` of record.rs when no other thread moves meanwhile.
use pin_bridge.Common.{
  ℕ, zero, suc, ◌+◌, ◌-◌, ◌%◌, ◌≡◌, refl, ◌∙◌, ap, List, [], ◌∷◌, ◌++◌, true, false, arith, ◌==◌,
}
use pin_bridge.Event.{Event}
use pin_bridge.Recorder.Protocol.{
  Producer, idle, arrived, entered, live, loaded, roomy, refused, reserved, wrote, leaving, update,
  goto, is_full, System, produce, Action, produces, step, run,
}
use pin_bridge.Recorder.Protocol.Slots.{update_self}

pub run-append :
    (size : ℕ) (s : System) (xs ys : List Action)
    → run size s (xs ++ ys) ≡ run size (run size s xs) ys
unfolding run
run-append size s [] ys = refl
run-append size s (a ∷ xs) ys = run-append size (step size s a) xs ys

module _ (size i : ℕ) (e : Event) where
  abbrev pub submits : Action
  submits = produces i e false

  -- As many steps of it.
  abbrev pub turns : ℕ → List Action
  turns zero = []
  turns (suc k) = submits ∷ turns k

  -- A call that found the slab full.
  abbrev pub Refused : System → System → Type 0
  Refused s t =
      (t.dropped ≡ s.dropped + 1)
      × (t.claim ≡ s.claim)
      × (t.log ≡ s.log)
      × (t.in_flight ≡ s.in_flight)
      × (t.producers i ≡ idle)

  -- A call that recorded `e`: it has the next number and slot, and the slot's tag fits.
  abbrev pub Recorded : System → System → Type 0
  Recorded s t =
      (t.dropped ≡ s.dropped)
      × (t.claim ≡ s.claim + 1)
      × (t.log ≡ s.log ++ e ∷ [])
      × (t.in_flight ≡ s.in_flight)
      × (t.producers i ≡ idle)
      × (t.tag (s.claim % size) ≡ s.claim + 1)
      × (t.payload (s.claim % size) ≡ record e { sequence = s.claim + 1 })

  -- One step of the thread, where it stands at `p`.
  acts :
      (s : System) (p : Producer) (t : System) (rest : List Action)
      → s.producers i ≡ p
      → produce size s i e false p ≡ t
      → run size s (submits ∷ rest) ≡ run size t rest
  unfolding run step
  acts s p t rest stands moved =
      ap (λ u. run size u rest) (ap (λ q. produce size s i e false q) stands ∙ moved)

  standing : (s : System) (p : Producer) → (goto s i p).producers i ≡ p
  standing s p = update_self s.producers i i p refl

  module _ (s : System) where
    abbrev pub at_entry : System
    at_entry = goto s i (arrived e)

    abbrev pub at_check : System
    at_check = record (goto at_entry i (entered e)) { in_flight = s.in_flight + 1 }

    abbrev pub at_load : System
    at_load = goto at_check i (live e)

    abbrev pub at_room : System
    at_room = goto at_load i (loaded e s.claim)

    abbrev pub at_drop : System
    at_drop = goto at_room i refused

    abbrev pub after_drop : System
    after_drop =
        record (goto (record (goto at_drop i leaving) { dropped = s.dropped + 1 }) i idle) {
          in_flight = s.in_flight + 1 - 1;
        }

    abbrev pub at_exchange : System
    at_exchange = goto at_room i (roomy e s.claim)

    abbrev pub at_write : System
    at_write = record (goto at_exchange i (reserved e s.claim)) {
      claim = s.claim + 1;
      log = s.log ++ e ∷ [];
    }

    abbrev pub at_publish : System
    at_publish = record (goto at_write i (wrote e s.claim)) {
      payload = update s.payload (s.claim % size) (record e { sequence = s.claim + 1 });
    }

    abbrev pub after_record : System
    after_record =
        record (goto
          (record (goto at_publish i leaving) { tag = update s.tag (s.claim % size) (s.claim + 1) })
          i idle) { in_flight = s.in_flight + 1 - 1 }

    module _ (stands : s.producers i ≡ idle) (armed : s.armed ≡ true) where
      checks :
          (rest : List Action)
          → run size s (submits ∷ submits ∷ submits ∷ submits ∷ rest) ≡ run size at_room rest
      unfolding produce
      checks rest =
          acts s idle at_entry _ stands (rw armed)
          ∙ acts at_entry (arrived e) at_check _ (standing s (arrived e)) refl
          ∙ acts at_check (entered e) at_load _ (standing at_entry (entered e)) (rw armed)
          ∙ acts at_load (live e) at_room _ (standing at_check (live e)) refl

      pub drops :
          (rest : List Action)
          → is_full size s.claim s.drained ≡ true
          → run size s (submits ∷ submits ∷ submits ∷ submits ∷ submits ∷ submits ∷ submits ∷ rest)
            ≡ run size after_drop rest
      unfolding produce
      drops rest full =
          checks _
          ∙ acts at_room (loaded e s.claim) at_drop _ (standing at_load (loaded e s.claim))
              (rw full)
          ∙ acts at_drop refused _ _ (standing at_room refused) refl
          ∙ acts (record (goto at_drop i leaving) { dropped = s.dropped + 1 }) leaving after_drop _
              (standing at_drop leaving) refl

      pub records :
          (rest : List Action)
          → is_full size s.claim s.drained ≡ false
          → run size s (
              submits ∷ submits ∷ submits ∷ submits ∷ submits ∷ submits ∷ submits ∷ submits
              ∷ submits ∷ rest)
            ≡ run size after_record rest
      unfolding produce
      records rest room =
          let same : s.claim == s.claim ≡ true = ground arith in
          checks _
          ∙ acts at_room (loaded e s.claim) at_exchange _ (standing at_load (loaded e s.claim))
              (rw room)
          ∙ acts at_exchange (roomy e s.claim) at_write _ (standing at_room (roomy e s.claim))
              (rw same)
          ∙ acts at_write (reserved e s.claim) at_publish _
              (standing at_exchange (reserved e s.claim)) refl
          ∙ acts at_publish (wrote e s.claim) _ _ (standing at_write (wrote e s.claim)) refl
          ∙ acts
              (record (goto at_publish i leaving) {
                tag = update s.tag (s.claim % size) (s.claim + 1);
              })
              leaving after_record _ (standing at_publish leaving) refl

  -- A call of `submit` on an idle thread, no other thread moving meanwhile: while ARMED is down it
  -- changes nothing; on a full slab it counts one drop and claims nothing; with room it records the
  -- event under the next number, publishes its slot, and drops nothing. IN_FLIGHT is back to where
  -- it was.
  pub submit_alone :
      (s : System)
      → s.producers i ≡ idle
      → (s.armed ≡ false → run size s (turns 1) ≡ s)
        × (s.armed ≡ true
            → is_full size s.claim s.drained ≡ true
            → Refused s (run size s (turns 7)))
        × (s.armed ≡ true
            → is_full size s.claim s.drained ≡ false
            → Recorded s (run size s (turns 9)))
  unfolding run produce
  submit_alone s stands = (
    λ off. acts s idle s [] stands (rw off refl),
    λ on full. rw (drops s stands on [] full) (
      refl,
      refl,
      refl,
      omega arith,
      update_self (goto (at_drop s) i leaving).producers i i idle refl,
    ),
    λ on room. rw (records s stands on [] room) (
      refl,
      refl,
      refl,
      omega arith,
      update_self (goto (at_publish s) i leaving).producers i i idle refl,
      update_self s.tag (s.claim % size) (s.claim % size) (s.claim + 1) refl,
      update_self s.payload (s.claim % size) (s.claim % size) _ refl,
    ),
  )
