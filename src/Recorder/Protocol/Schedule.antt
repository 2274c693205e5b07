-- ===== src/Recorder/Protocol/Schedule.antt =====
-- Whole schedules of a session, from its start.
use pin_bridge.Common.{
  ℕ, suc, ◌+◌, ◌%◌, ◌≤◌, ◌<◌, ◌≡◌, ◌≢◌, refl, sym, ◌∙◌, ap, subst, List, [], ◌∷◌, Bool, false, some,
  arith, length, get_elem?, take, u64_mod, All,
}
use pin_bridge.Event.{Event}
use pin_bridge.Ring.Holds.{number}
use pin_bridge.Recorder.Protocol.{
  Producer, Place, poll, compares, matched, fetched, missing, missing_stopped, holed, idle_check,
  idle_stopped, closed, System, started, Action, produces, drains, stops, step, run,
}
use pin_bridge.Recorder.Protocol.Threads.{total}
use pin_bridge.Recorder.Protocol.Slots.{holds, Fine-holds}
use pin_bridge.Recorder.Protocol.Moves.{apart}
use pin_bridge.Recorder.Protocol.Invariant.{
  committed, Knows, KnowsAt, Invariant, started-Invariant, drain-Invariant, Published-of_calm,
}
use pin_bridge.Recorder.Protocol.Steps.{later, produce-Invariant}

module _ (size n claim next : ℕ) (log : List Event) (tag : ℕ → ℕ) (armed : Bool)
    (P : ℕ → Producer) where
  -- What the drainer knows is still so after `stop`.
  Knows-stop :
      (place : Place)
      → Knows size n claim next log tag armed P place
      → Knows size n claim next log tag false P place
  Knows-stop poll know = tt
  Knows-stop (compares c) know = know
  Knows-stop matched know = know
  Knows-stop (fetched e) know = know
  Knows-stop missing know = know
  Knows-stop missing_stopped know = (know.0, refl)
  Knows-stop holed know = (know.0, (refl, know.1.1))
  Knows-stop idle_check know = tt
  Knows-stop idle_stopped know = refl
  Knows-stop closed know = (refl, know.1)

-- The threads of a schedule are below `n`.
abbrev pub Within : ℕ → Action → Type 0
Within n (produces i event spurious) = i < n
Within n drains = Unit {0}
Within n stops = Unit {0}

pub step-Invariant :
    (size n k : ℕ) (s : System) (a : Action)
    → Invariant size n k s
    → Within n a
    → k < u64_mod
    → Invariant size n (k + 1) (step size s a)
unfolding step
step-Invariant size n k s (produces i event spurious) v lt bound =
    produce-Invariant size n k s v i lt event spurious bound (s.producers i) refl
step-Invariant size n k s drains v lt bound =
    later size n k _ (drain-Invariant size n k s v s.place v.knows)
step-Invariant size n k s stops v lt bound = record {
  slots = v.slots;
  released = v.released;
  counted = v.counted;
  knows = Knows-stop size n s.claim s.next s.log s.tag s.armed s.producers s.place v.knows;
  reads = v.reads;
  early = omega (arith, v.early);
}

pub run-Invariant :
    (size n k : ℕ) (s : System) (actions : List Action)
    → Invariant size n k s
    → All (Within n) actions
    → k + length actions ≤ u64_mod
    → Invariant size n (k + length actions) (run size s actions)
unfolding run
run-Invariant size n k s [] v within bound =
    let e : k ≡ k + 0 = omega arith in subst (λ j. Invariant size n j s) e v
run-Invariant size n k s (a ∷ actions) v within bound =
    let e : k + 1 + length actions ≡ k + suc (length actions) = omega arith in
    subst (λ j. Invariant size n j (run size (step size s a) actions)) e
      (run-Invariant size n (k + 1) (step size s a) actions
        (step-Invariant size n k s a v within.0 (omega arith)) within.1 (omega arith))

module _ (size n : ℕ) (actions : List Action) (within : All (Within n) actions)
    (bound : length actions ≤ u64_mod) where
  abbrev pub reached : System
  reached = run size started actions

  pub invariant : Invariant size n (length actions) reached
  invariant =
      let e : 0 + length actions ≡ length actions = omega arith in
      subst (λ j. Invariant size n j reached) e
        (run-Invariant size n 0 started actions (started-Invariant size n) within (omega arith))

  -- After any schedule of at most 2^64 steps by `n` threads, the drainer and `stop`, unless
  -- FAILED is set, what the drainer has read is exactly the first DRAINED events in the order of
  -- their reservations, each once and with its place in that order as its sequence number.
  pub drained_in_order :
      reached.failed ≡ false → reached.consumed ≡ take reached.drained (number 0 reached.log)
  drained_in_order ok =
      invariant.reads ok ∙ ap (λ d. take d (number 0 reached.log)) (sym invariant.released)

  -- After any schedule of at most 2^64 steps, DRAINED never passes CLAIM, CLAIM is never more than
  -- the slab's size ahead of it, CLAIM counts the reservations, and IN_FLIGHT the threads between
  -- its increment and its decrement.
  pub never_overruns :
      (reached.drained ≤ reached.claim)
      × (reached.claim ≤ reached.drained + size)
      × (reached.claim ≡ length reached.log)
      × (reached.in_flight ≡ total n reached.producers)
  never_overruns = (
    omega (arith, invariant.released, invariant.slots.ahead),
    omega (arith, invariant.released, invariant.slots.window),
    invariant.slots.count,
    invariant.counted,
  )

  holder :
      (i c : ℕ)
      → holds (reached.producers i) ≡ some c
      → (reached.next ≤ c) × (c < reached.claim) × (reached.tag (c % size) ≢ c + 1)
  holder i c h =
      Fine-holds size reached.claim reached.next reached.log reached.tag reached.payload
        (reached.producers i) c (invariant.slots.fine i) h

  -- After any schedule of at most 2^64 steps, two threads that have reserved and not yet published
  -- hold different slots, the tag of such a slot does not fit, and where the drainer is about to
  -- read the payload of a slot, it is none of these.
  pub slots_are_exclusive :
      (i j c d : ℕ)
      → holds (reached.producers i) ≡ some c
      → holds (reached.producers j) ≡ some d
      → (reached.tag (c % size) ≢ c + 1)
        × (i ≢ j → c % size ≢ d % size)
        × (reached.place ≡ matched → c % size ≢ reached.next % size)
  slots_are_exclusive i j c d hi hj =
      let mine = holder i c hi in
      let other = holder j d hj in
      (
        mine.2,
        (λ ne.
            apart size n reached.claim reached.next reached.log reached.tag reached.payload
              reached.producers invariant.slots c d mine.0 mine.1 other.0 other.1
              (λ same. ne (invariant.slots.unique i j c hi (hj ∙ ap some (sym same))))),
        λ at_read.
            let know : KnowsAt size n reached matched =
              subst (KnowsAt size n reached) at_read invariant.knows in
            apart size n reached.claim reached.next reached.log reached.tag reached.payload
              reached.producers invariant.slots c reached.next mine.0 mine.1 (omega arith) know.0
              (λ same.
                mine.2
                  (ap (λ k. reached.tag (k % size)) same ∙ know.1 ∙ ap (λ k. k + 1) (sym same))),
      )

  -- After any schedule of at most 2^64 steps, once the drainer's loop has ended, ARMED is down, no
  -- thread can record any more, and each reservation that the drainer has not read is published.
  pub closed_is_quiet :
      reached.place ≡ closed
      → (reached.armed ≡ false)
        × ((i : ℕ) → i < n → committed (reached.producers i) ≡ false)
        × ((c : ℕ) → reached.drained ≤ c → c < reached.claim → reached.tag (c % size) ≡ c + 1)
  closed_is_quiet at_end =
      let calm : Knows size n reached.claim reached.next reached.log reached.tag reached.armed
          reached.producers closed =
        subst (KnowsAt size n reached) at_end invariant.knows in
      (
        calm.0,
        calm.1,
        λ c lo hi.
            (Published-of_calm size n reached.claim reached.next reached.log reached.tag
              reached.payload reached.producers invariant.slots calm.1 c
              (omega (arith, invariant.released)) hi).0,
      )

  -- After any schedule of at most 2^64 steps, where the drainer is about to record an "unpublished
  -- reserved slot", that slot is published, and its event is dropped unread.
  pub hole_is_published :
      reached.place ≡ holed
      → (reached.tag (reached.next % size) ≡ reached.next + 1)
        × (get_elem? (number 0 reached.log) reached.next
            ≡ some (reached.payload (reached.next % size)))
  hole_is_published at_hole =
      let know : KnowsAt size n reached holed =
        subst (KnowsAt size n reached) at_hole invariant.knows in
      Published-of_calm size n reached.claim reached.next reached.log reached.tag reached.payload
        reached.producers invariant.slots know.1.1 reached.next (omega arith) know.0
