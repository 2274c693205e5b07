-- ===== src/Examples/Stepper.antt =====
-- The stepper's own tests, and its theorems at concrete steps.
use pin_bridge.Common.{◌≡◌, refl, List, [], ◌∷◌, true, false}
use pin_bridge.Stepper.{
  Stepper, into, no_thread, publish_candidates, claim_breakpoint, candidate_index, find_candidate,
}
use pin_bridge.Stepper.Claims.{landings, landings_lem}
use pin_bridge.Stepper.Candidates.{claim_breakpoint-published}
use pin_bridge.Stepper.Suspension.{suspension_frees}
use pin_bridge.Stepper.Parking.{
  Parking, ParkCall, parks, releases, begins_suspend, ends_suspend, wakes, after_call, after_calls,
  Served, waits, entered, left,
}
use pin_bridge.Stepper.{park_current, park_slot, begin_suspend, end_suspend, release, wake}
use pin_bridge.Common.{Bool, ℕ, ◌⊎◌, inl}

abbrev at_rest : Stepper
at_rest = record {
  step_tid = no_thread;
  start_ip = 0;
  mode = into;
  stepping = false;
  replay_pending = false;
  compat_tid = no_thread;
  candidate_count = 0;
  candidates = λ _. 0;
  has_semaphore = true;
  has_mutex = true;
  parked = false;
  parked_tid = 0;
  parked_ip = 0;
  suspending = false;
  passthrough = λ _. false;
  semaphore = false;
  stops = 0;
}

abbrev stepping_seven : Stepper
stepping_seven = publish_candidates at_rest 7 4096 (4096 ∷ 8192 ∷ [])

-- Thread 8 claims in vain, thread 7 lands, and a second claim of it does not.
landings_lem_example : landings stepping_seven ((1, 8) ∷ (1, 7) ∷ (0, 7) ∷ []) ≡ 8192 ∷ []
unfolding publish_candidates
landings_lem_example = landings_lem stepping_seven ((1, 8) ∷ (1, 7) ∷ (0, 7) ∷ []) refl

claim_breakpoint-published_example : (claim_breakpoint stepping_seven 7 8192).1 ≡ true
claim_breakpoint-published_example =
    claim_breakpoint-published at_rest 7 4096 4096 (8192 ∷ []) 7 8192

unrelated_breakpoint_is_not_a_step_landing :
    (claim_breakpoint (publish_candidates at_rest 3 12288 (12289 ∷ 12304 ∷ [])) 3 16384).1 ≡ false
unfolding claim_breakpoint candidate_index find_candidate publish_candidates
unrelated_breakpoint_is_not_a_step_landing = refl

abbrev empty_slot : Parking
empty_slot = record { stepper = at_rest; waiting = [] }

empty_slot-Served : Served empty_slot
empty_slot-Served = record {
  mutex = refl;
  semaphore = refl;
  clear = λ q. refl;
  placed = inl (refl, refl, refl);
}

-- A thread is freed by a suspension and leaves; a second one parks, and the next suspension frees it.
abbrev contested : List ParkCall
contested =
    parks 1 4096 true
    ∷ begins_suspend
    ∷ parks 2 8192 true
    ∷ wakes 1
    ∷ ends_suspend
    ∷ parks 2 8192 true
    ∷ begins_suspend
    ∷ []

abbrev after_contested : Parking
after_contested = after_calls empty_slot contested

suspension_frees_example :
    ((t address : ℕ) (locked : Bool)
      → park_current after_contested.stepper t address locked ≡ (after_contested.stepper, false))
    × ((after_contested.waiting ≡ [])
        ⊎ ((t : ℕ) × (after_contested.waiting ≡ t ∷ [])
            × ((after_call after_contested (wakes t)).waiting ≡ [])))
unfolding after_calls after_call entered left waits park_current park_slot begin_suspend end_suspend
    release wake
suspension_frees_example =
    suspension_frees empty_slot contested empty_slot-Served
      ((λ r q. refl), (tt, ((λ r q. absurd (cc r)), (tt, (tt, ((λ r q. refl), (tt, tt))))))) refl

-- A second thread parks before the first has left its wait: its release finds the semaphore still
-- set, the first thread clears it, and the second waits on in the suspension.
abbrev early_park : List ParkCall
early_park =
    parks 1 4096 true ∷ releases ∷ parks 2 8192 true ∷ begins_suspend ∷ wakes 1 ∷ wakes 2 ∷ []

early_park_strands : (after_calls empty_slot early_park).waiting ≡ 2 ∷ []
unfolding after_calls after_call entered left waits park_current park_slot begin_suspend end_suspend
    release wake
early_park_strands = refl
