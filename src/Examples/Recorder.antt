-- ===== src/Examples/Recorder.antt =====
-- Schedules of two threads on a slab of two slots, and the recorder's theorems at them.
use pin_bridge.Common.{
  ℕ, zero, suc, ◌+◌, ◌-◌, ◌≤◌, ◌<◌, ◌%◌, ◌≡◌, ◌≢◌, refl, List, [], ◌∷◌, none, some, true, false,
  arith, Bool, ltb, ◌&&◌, All, length,
}
use pin_bridge.Event.{Event, empty, event_repeat}
use pin_bridge.Ring.Holds.{number}
use pin_bridge.Recorder.Protocol.{
  Action, produces, drains, stops, System, started, step, run, produce, drain, loaded, refused,
  goto, is_full, closed,
}
use pin_bridge.Recorder.Protocol.Invariant.{committed}
use pin_bridge.Recorder.Protocol.{matched}
use pin_bridge.Recorder.Protocol.Threads.{total}
use pin_bridge.Recorder.Protocol.Schedule.{
  Within, drained_in_order, never_overruns, slots_are_exclusive, closed_is_quiet, hole_is_published,
}
use pin_bridge.Recorder.Protocol.Submit.{Refused, Recorded, turns, submit_alone}
use pin_bridge.Recorder.Protocol.Finish.{Complete, rounds, finishes}
use pin_bridge.Recorder.Protocol.Races.{late, late_record_is_lost, stale_load_is_refused}
use pin_bridge.Recorder.Tape.{start, consume_all, finish}
use pin_bridge.Recorder.Tape.Expand.{expand}
use pin_bridge.Recorder.Session.{tape_is_complete}

-- Whether the threads of a schedule are below `n`.
abbrev are_below : ℕ → List Action → Bool
are_below n [] = true
are_below n (produces i e spurious ∷ actions) = ltb i n && are_below n actions
are_below n (drains ∷ actions) = are_below n actions
are_below n (stops ∷ actions) = are_below n actions

below : (n : ℕ) (actions : List Action) → are_below n actions ≡ true → All (Within n) actions
below n [] h = tt
below n (produces i e spurious ∷ actions) h = (ground arith, below n actions (ground arith))
below n (drains ∷ actions) h = (tt, below n actions h)
below n (stops ∷ actions) h = (tt, below n actions h)

abbrev sample : ℕ → Event
sample i = record empty { kind = 2; thread_id = i; arg0 = 7 }

-- Thread 0 reserves first and publishes last; the drainer reads one event, and `stop` comes.
abbrev crossed : List Action
crossed =
    produces 0 (sample 0) false
    ∷ produces 0 (sample 0) false
    ∷ produces 0 (sample 0) false
    ∷ produces 0 (sample 0) false
    ∷ produces 0 (sample 0) false
    ∷ produces 0 (sample 0) false
    ∷ produces 1 (sample 1) false
    ∷ produces 1 (sample 1) false
    ∷ produces 1 (sample 1) false
    ∷ produces 1 (sample 1) false
    ∷ produces 1 (sample 1) false
    ∷ produces 1 (sample 1) false
    ∷ produces 1 (sample 1) false
    ∷ produces 1 (sample 1) false
    ∷ produces 1 (sample 1) false
    ∷ produces 0 (sample 0) false
    ∷ produces 0 (sample 0) false
    ∷ produces 0 (sample 0) false
    ∷ drains
    ∷ drains
    ∷ drains
    ∷ drains
    ∷ stops
    ∷ []

crossed-Within : All (Within 2) crossed
crossed-Within = below 2 crossed refl

-- The drainer misses the tag of thread 0, which then publishes and leaves before `stop`.
abbrev holed_run : List Action
holed_run =
    produces 0 (sample 0) false
    ∷ produces 0 (sample 0) false
    ∷ produces 0 (sample 0) false
    ∷ produces 0 (sample 0) false
    ∷ produces 0 (sample 0) false
    ∷ produces 0 (sample 0) false
    ∷ drains
    ∷ drains
    ∷ produces 0 (sample 0) false
    ∷ produces 0 (sample 0) false
    ∷ produces 0 (sample 0) false
    ∷ stops
    ∷ drains
    ∷ drains
    ∷ []

holed_run-Within : All (Within 2) holed_run
holed_run-Within = below 2 holed_run refl

-- The drainer loads CLAIM, thread 0 records, and `stop` comes.
abbrev closed_run : List Action
closed_run =
    drains
    ∷ produces 0 (sample 0) false
    ∷ produces 0 (sample 0) false
    ∷ produces 0 (sample 0) false
    ∷ produces 0 (sample 0) false
    ∷ produces 0 (sample 0) false
    ∷ produces 0 (sample 0) false
    ∷ produces 0 (sample 0) false
    ∷ produces 0 (sample 0) false
    ∷ produces 0 (sample 0) false
    ∷ stops
    ∷ drains
    ∷ drains
    ∷ drains
    ∷ []

closed_run-Within : All (Within 2) closed_run
closed_run-Within = below 2 closed_run refl

-- Two threads have reserved, and neither has published.
abbrev both_reserve : List Action
both_reserve =
    produces 0 (sample 0) false
    ∷ produces 0 (sample 0) false
    ∷ produces 0 (sample 0) false
    ∷ produces 0 (sample 0) false
    ∷ produces 0 (sample 0) false
    ∷ produces 0 (sample 0) false
    ∷ produces 1 (sample 1) false
    ∷ produces 1 (sample 1) false
    ∷ produces 1 (sample 1) false
    ∷ produces 1 (sample 1) false
    ∷ produces 1 (sample 1) false
    ∷ produces 1 (sample 1) false
    ∷ []

both_reserve-Within : All (Within 2) both_reserve
both_reserve-Within = below 2 both_reserve refl

abbrev after_crossed : System
after_crossed = run 2 started crossed

finishes_example :
    Complete after_crossed
      (run 2 after_crossed (rounds (after_crossed.claim - after_crossed.drained)))
unfolding run step produce drain started
finishes_example = finishes 2 2 crossed crossed-Within (omega arith) refl refl refl refl

drained_in_order_example : after_crossed.consumed ≡ record (sample 0) { sequence = 1 } ∷ []
unfolding run step produce drain started
drained_in_order_example = drained_in_order 2 2 crossed crossed-Within (omega arith) refl

never_overruns_example :
    (after_crossed.drained ≤ after_crossed.claim)
    × (after_crossed.claim ≤ after_crossed.drained + 2)
    × (after_crossed.claim ≡ length after_crossed.log)
    × (after_crossed.in_flight ≡ total 2 after_crossed.producers)
never_overruns_example = never_overruns 2 2 crossed crossed-Within (omega arith)

slots_are_exclusive_example :
    ((run 2 started both_reserve).tag (0 % 2) ≢ 0 + 1)
    × (zero ≢ 1 → zero % 2 ≢ 1 % 2)
    × ((run 2 started both_reserve).place ≡ matched
        → zero % 2 ≢ (run 2 started both_reserve).next % 2)
unfolding run step produce drain started
slots_are_exclusive_example =
    slots_are_exclusive 2 2 both_reserve both_reserve-Within (omega arith) 0 1 0 1 refl refl

closed_is_quiet_example :
    ((run 2 started closed_run).armed ≡ false)
    × ((i : ℕ) → i < 2 → committed ((run 2 started closed_run).producers i) ≡ false)
    × ((c : ℕ)
        → (run 2 started closed_run).drained ≤ c
        → c < (run 2 started closed_run).claim
        → (run 2 started closed_run).tag (c % 2) ≡ c + 1)
unfolding run step produce drain started
closed_is_quiet_example = closed_is_quiet 2 2 closed_run closed_run-Within (omega arith) refl

hole_is_published_example :
    ((run 2 started holed_run).tag 0 ≡ 1)
    × (some (record (sample 0) { sequence = 1 }) ≡ some ((run 2 started holed_run).payload 0))
unfolding run step produce drain started
hole_is_published_example = hole_is_published 2 2 holed_run holed_run-Within (omega arith) refl

submit_alone_example :
    (started.armed ≡ false → run 2 started (turns 2 1 (sample 1) 1) ≡ started)
    × (started.armed ≡ true
        → is_full 2 started.claim started.drained ≡ true
        → Refused 2 1 (sample 1) started (run 2 started (turns 2 1 (sample 1) 7)))
    × (started.armed ≡ true
        → is_full 2 started.claim started.drained ≡ false
        → Recorded 2 1 (sample 1) started (run 2 started (turns 2 1 (sample 1) 9)))
unfolding started
submit_alone_example = submit_alone 2 1 (sample 1) started refl

late_record_is_lost_example :
    ((run 2 started (late 0 (sample 0))).place ≡ closed)
    × ((run 2 started (late 0 (sample 0))).claim ≡ 1)
    × ((run 2 started (late 0 (sample 0))).log ≡ sample 0 ∷ [])
    × ((run 2 started (late 0 (sample 0))).drained ≡ 0)
    × ((run 2 started (late 0 (sample 0))).dropped ≡ 0)
    × ((run 2 started (late 0 (sample 0))).failed ≡ false)
    × ((run 2 started (late 0 (sample 0))).consumed ≡ [])
unfolding started
late_record_is_lost_example =
    late_record_is_lost 2 0 (sample 0) started refl refl refl refl refl refl

-- Thread 0 has loaded CLAIM when it was 0; since then one event has been recorded and drained.
abbrev stale : System
stale = record (goto started 0 (loaded (sample 0) 0)) { claim = 1; drained = 1; next = 1 }

stale_load_is_refused_example : step 2 stale (produces 0 (sample 0) false) ≡ goto stale 0 refused
unfolding started
stale_load_is_refused_example =
    stale_load_is_refused 2 0 0 (sample 0) false stale refl (omega arith) (omega arith)
      (omega arith)

abbrev two_runs : List Event
two_runs = sample 0 ∷ sample 0 ∷ sample 0 ∷ sample 1 ∷ []

other_kind : suc 1 ≢ event_repeat
other_kind h = omega arith

tape_is_complete_example :
    expand none (
      finish (
        consume_all start
          (run 2 after_crossed (rounds (after_crossed.claim - after_crossed.drained))).consumed))
    ≡ number 0 (sample 0 ∷ sample 1 ∷ [])
unfolding run step produce drain started
tape_is_complete_example =
    tape_is_complete 2 2 crossed crossed-Within (omega arith) refl refl refl refl
      (other_kind, (other_kind, tt)) (omega arith)
