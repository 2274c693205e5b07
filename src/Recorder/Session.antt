-- ===== src/Recorder/Session.antt =====
-- From the threads to the file: the slab, the drainer and its run-length encoding together.
use pin_bridge.Common.{
  ℕ, suc, ◌+◌, ◌-◌, ◌≤◌, ◌<◌, ◌≡◌, ◌≢◌, ◌∙◌, ap, List, [], ◌∷◌, false, none, arith, All, length,
  u64_mod,
}
use pin_bridge.Event.{Event, event_repeat}
use pin_bridge.Ring.Holds.{number}
use pin_bridge.Recorder.Protocol.{Action, poll, run}
use pin_bridge.Recorder.Protocol.Schedule.{Within, reached, invariant}
use pin_bridge.Recorder.Protocol.Finish.{rounds, finishes}
use pin_bridge.Recorder.Tape.{start, consume_all, finish}
use pin_bridge.Recorder.Tape.Expand.{Plain, expand, expand-finish}

abbrev pub Captured : Event → Type 0
Captured e = e.kind ≢ event_repeat

number-Plain :
    (k : ℕ) (log : List Event)
    → All Captured log
    → k + length log < u64_mod - 1
    → All Plain (number k log)
number-Plain k [] h small = tt
number-Plain k (e ∷ log) h small = ((h.0, omega arith), number-Plain (suc k) log h.1 (omega arith))

module _ (size n : ℕ) (actions : List Action) (within : All (Within n) actions)
    (bound : length actions ≤ u64_mod) where
  -- After any schedule of at most 2^64 steps that has stopped the session, left no thread inside
  -- `submit`, not set FAILED, and left the drainer at the top of its loop, with fewer than 2^64 - 2
  -- reservations and no event that is itself a repeat record: once the drainer has ended, expanding
  -- the repeat records that it has written gives every event that was reserved, in order.
  pub tape_is_complete :
      (reached size n actions within bound).place ≡ poll
      → (reached size n actions within bound).armed ≡ false
      → (reached size n actions within bound).in_flight ≡ 0
      → (reached size n actions within bound).failed ≡ false
      → All Captured (reached size n actions within bound).log
      → (reached size n actions within bound).claim < u64_mod - 2
      → expand none (
          finish (
            consume_all start
              (run size (reached size n actions within bound) (
                rounds (
                  (reached size n actions within bound).claim
                  - (reached size n actions within bound).drained))).consumed))
        ≡ number 0 (reached size n actions within bound).log
  tape_is_complete top off empty ok captured small =
      let s = reached size n actions within bound in
      let counted = (invariant size n actions within bound).slots.count in
      let (_, _, _, _, read) = finishes size n actions within bound top off empty ok in
      ap (λ es. expand none (finish (consume_all start es))) read
      ∙ expand-finish (number 0 s.log) (number-Plain 0 s.log captured (omega (arith, counted)))
