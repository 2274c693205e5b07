-- ===== src/Examples/Trap.antt =====
-- Two overlapping traps, and the theorems on execution traps at them.
use pin_bridge.Common.{
  ℕ, ◌≡◌, refl, List, [], ◌∷◌, map, true, false, ◌&&◌, ◌⊎◌, none, some, keep, length,
}
use pin_bridge.Trap.{
  pb_ok, idle, init, any_slot, covers, matches, wants, on_execute, publish_stopped, set, stored,
  flushed, place, new_slot, with_bounds, bad_thread, any_active,
}
use pin_bridge.Trap.Sound.{
  Sound, Call, inits, sets, publishes, removes, call, after_calls, after_calls-Sound,
  wants-any_slot,
}
use pin_bridge.Trap.Stops.{hit, matched, stop_event, stop-published}

-- A one-shot trap, and one for thread 7 that goes on.
abbrev two_traps : List Call
two_traps =
    inits true
    ∷ sets false true pb_ok true 4096 8192 true none
    ∷ sets false true pb_ok true 6144 12288 false (some 7)
    ∷ []

after_calls-Sound_example : Sound (after_calls idle two_traps)
after_calls-Sound_example = after_calls-Sound two_traps

wants-any_slot_example : wants (after_calls idle two_traps) true 5000 ≡ (
    ((after_calls idle two_traps).mutex && true)
    && any_slot (covers 5000) (after_calls idle two_traps).slots)
wants-any_slot_example = wants-any_slot two_traps true 5000

wanted : wants (after_calls idle two_traps) true 5000 ≡ true
unfolding after_calls call idle init set stored flushed place new_slot with_bounds bad_thread wants
    any_active covers
wanted = refl

-- The breaker publishes the stop, a third trap is set, and the one-shot trap is removed.
abbrev until_resume : List Call
until_resume =
    publishes true 1 ∷ sets false true pb_ok true 7000 7001 false none ∷ removes true 1 ∷ []

stop-published_example :
    ((any_slot (matched 7000 7) (after_calls idle two_traps).slots ≡ false)
      × (on_execute (after_calls idle two_traps) 7000 7 ≡ (after_calls idle two_traps, false)))
    ⊎ ((any_slot (matched 7000 7) (after_calls idle two_traps).slots ≡ true)
        × ((on_execute (after_calls idle two_traps) 7000 7).1 ≡ true)
        × ((address' thread_id' : ℕ)
            → on_execute
                (after_calls (on_execute (after_calls idle two_traps) 7000 7).0 until_resume)
                address'
                thread_id'
              ≡ (
                after_calls (on_execute (after_calls idle two_traps) 7000 7).0 until_resume,
                false,
              ))
        × ((publish_stopped (on_execute (after_calls idle two_traps) 7000 7).0 true 1).1
            ≡ map
                (λ s. stop_event 7000 7 1 (hit s))
                (keep (matched 7000 7) (after_calls idle two_traps).slots)))
unfolding after_calls call idle init set stored flushed place new_slot with_bounds bad_thread
stop-published_example =
    stop-published two_traps until_resume 7000 7 1 refl refl (tt, (tt, (tt, tt)))

both_stop : length (keep (matched 7000 7) (after_calls idle two_traps).slots) ≡ 2
unfolding after_calls call idle init set stored flushed place new_slot with_bounds bad_thread
    matches
both_stop = refl
