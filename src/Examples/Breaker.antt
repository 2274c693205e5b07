-- ===== src/Examples/Breaker.antt =====
-- A table with a breakpoint that has fired and one that is active, and the breaker's theorems at it.
use pin_bridge.Common.{ℕ, ◌≤◌, ◌≡◌, ◌≢◌, refl, [], ◌∷◌, Bool, true, false, none, some, arith}
use pin_bridge.Stepper.{Stepper, into, no_thread}
use pin_bridge.Trap
use pin_bridge.Breaker.{
  Slot, Breaker, no_hit_tid, find, remove, on_hit, arm_step_watchdog, tick, no_effects,
}
use pin_bridge.Breaker.Table.{live, Counted, fired_removal_hides}
use pin_bridge.Common.{suc, ◌<◌, ◌-◌, List}
use pin_bridge.Breaker.Race.{advance, at_breakpoint, overlapped, run_hits, double_fire_hides}
use pin_bridge.Breaker.Watchdog.{Paused, rounds, watchdog_pauses}
use pin_bridge.Breaker.Replay.{Hit, resumed_over, resume_replays_once}

abbrev still : Stepper
still = record {
  step_tid = no_thread;
  start_ip = 0;
  mode = into;
  stepping = false;
  replay_pending = false;
  compat_tid = no_thread;
  candidate_count = 0;
  candidates = λ i. 0;
  has_semaphore = true;
  has_mutex = true;
  parked = false;
  parked_tid = no_thread;
  parked_ip = 0;
  suspending = false;
  passthrough = λ i. false;
  semaphore = false;
  stops = 0;
}

abbrev fired : Slot
fired = record { used = true; id = 1; address = 4096; hits = 1; active = false; one_shot = true }

abbrev armed : Slot
armed = record { used = true; id = 2; address = 8192; hits = 0; active = true; one_shot = false }

-- Thread 7 has been stopped at the second one.
abbrev stopped_at : Breaker
stopped_at = record {
  mutex = true;
  slots = fired ∷ armed ∷ [];
  active_count = 1;
  next_id = 3;
  hit_pending = false;
  watchdog_ticks = 0;
  stop_gen = 4;
  last_hit_tid = 7;
  last_hit_addr = 8192;
  stub = true;
  redirect_active = true;
  redirect_tid = 7;
  redirect_addr = 8192;
  resume_skip_tid = no_hit_tid;
  resume_skip_addr = 0;
  stopped = true;
  stepper = still;
  traps = Trap.idle;
}

abbrev running : Breaker
running = record stopped_at { stopped = false }

fired_removal_hides_example :
    ((remove stopped_at true 1).1 ≡ true)
    × (live (remove stopped_at true 1).0.slots ≡ 1)
    × ((locked : Bool) (address : ℕ) → find (remove stopped_at true 1).0 locked address ≡ none)
fired_removal_hides_example = fired_removal_hides stopped_at 1 refl refl refl refl

-- Before the removal the lookup finds the active breakpoint.
found_before : find stopped_at true 8192 ≡ some 1
unfolding find
found_before = refl

stopped_at-Counted : Counted stopped_at
stopped_at-Counted = record {
  table = omega arith;
  counted = refl;
  owned = ((λ on. refl), ((λ on. refl), tt));
}

-- The first breakpoint before it has fired.
abbrev both_live : Breaker
both_live = record running {
  slots = record fired { hits = 0; active = true } ∷ armed ∷ [];
  active_count = 2;
}

double_fire_hides_example :
    (live (run_hits 0 (at_breakpoint both_live) overlapped).breaker.slots ≡ 1)
    × ((locked : Bool) (other : ℕ)
        → find (run_hits 0 (at_breakpoint both_live) overlapped).breaker locked other ≡ none)
double_fire_hides_example = double_fire_hides both_live 0 true 1 4096 0 refl refl refl

-- One after the other, the second thread finds the breakpoint off.
abbrev in_turn : List ℕ
in_turn = 0 ∷ 0 ∷ 0 ∷ 0 ∷ 0 ∷ 1 ∷ 1 ∷ []

found_in_turn : find (run_hits 0 (at_breakpoint both_live) in_turn).breaker true 8192 ≡ some 1
unfolding find run_hits advance
found_in_turn = refl

watchdog_pauses_example :
    ((k : ℕ)
      → k ≤ 2
      → rounds k (arm_step_watchdog running 3) true
        ≡ record running { watchdog_ticks = suc (2 - k) })
    × ((k : ℕ)
        → k < 2
        → (tick (rounds k (arm_step_watchdog running 3) true) true true).1 ≡ no_effects)
    × Paused running (rounds 3 (arm_step_watchdog running 3) true)
watchdog_pauses_example = watchdog_pauses running 2 true (record { runs = refl; calm = refl })

seven_ne : ◌≢◌ {A = ℕ} 7 no_hit_tid
seven_ne e = absurd (omega (arith, e))

resume_replays_once_example :
    (((on_hit (resumed_over stopped_at armed) true true true (some 7) 1).slots ≡ stopped_at.slots)
      × ((on_hit (resumed_over stopped_at armed) true true true (some 7) 1).hit_pending
          ≡ stopped_at.hit_pending))
    × Hit 1 armed (
        on_hit
          (on_hit (resumed_over stopped_at armed) true true true (some 7) 1)
          true
          true
          true
          (some 7)
          1)
    × ((other : ℕ)
        → other ≢ 7
        → Hit 1 armed (on_hit (resumed_over stopped_at armed) true true true (some other) 1))
resume_replays_once_example =
    resume_replays_once stopped_at true true true 7 1 armed (omega arith) refl refl refl seven_ne
      refl refl
