-- ===== src/Examples/Leases.antt =====
-- Two scripts that share a hook point, and one that comes back before the removal.
use pin_bridge.Common.{◌≡◌, refl, List, [], ◌∷◌, true, false, some, arith, All}
use pin_bridge.Leases.{
  waiting, acquire_hook, give_up, release_hook, queue_hook_removal, lease_left, release, queued,
  is_pending, lease_after, acquire, cancel_pending_hook_removal, apply_removals, take_hook_removals,
  remove_hooks,
}
use pin_bridge.Leases.Counts.{Call, acquires, gives_up, applies, no_leases, run, step, held, count}
use pin_bridge.Leases.Holders.{run-held}

-- The first script creates the hook point at 64; the last to leave is the second.
abbrev shared_hook : List Call
shared_hook =
    acquires 64 true
    ∷ acquires 64 false
    ∷ gives_up 64
    ∷ gives_up 64
    ∷ acquires 72 true
    ∷ applies true (λ a. false)
    ∷ []

run-held_example :
    (count ((run no_leases shared_hook).leases 72) ≡ held 72 0 shared_hook)
    × All (λ b. held b 0 shared_hook ≡ 0) (waiting (run no_leases shared_hook).pending)
run-held_example = run-held shared_hook 72 (omega arith)

-- The client has refused the removal, so it is queued again.
waits_again : waiting (run no_leases shared_hook).pending ≡ 64 ∷ []
unfolding run step acquire_hook give_up release_hook queue_hook_removal lease_left release queued
    is_pending lease_after acquire cancel_pending_hook_removal apply_removals take_hook_removals
    remove_hooks
waits_again = refl

-- A script that comes back takes the address out of the queue and owns the hook point.
revived :
    (run no_leases (acquires 64 true ∷ gives_up 64 ∷ acquires 64 false ∷ [])).leases 64
    ≡ some (record { subscribers = 1; remove_at_zero = true })
unfolding run step acquire_hook give_up release_hook queue_hook_removal lease_left release queued
    is_pending lease_after acquire cancel_pending_hook_removal
revived = refl
