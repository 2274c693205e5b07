-- ===== src/Examples/Control.antt =====
-- A handoff to the AI, and two of its requests writing while a takeover waits.
use pin_bridge.Common.{◌≡◌, refl, List, [], ◌∷◌, true, false, some, arith}
use pin_bridge.Control.{
  ai_autonomous, ai_can_write, manual, ai, trusted_human, new, handoff, begin_takeover, check,
  not_trusted_human, HubStep, begins, checks, handoffs, takes_over, hub_step, hub_run,
}
use pin_bridge.Control.Exclusion.{quiet_hub, hub_run-exclusive}

abbrev ai_session : List HubStep
ai_session =
    handoffs trusted_human ai_autonomous
    ∷ begins 0 ai
    ∷ begins 1 ai
    ∷ checks 0
    ∷ takes_over trusted_human
    ∷ checks 1
    ∷ []

hub_run-exclusive_example :
    (ai ≡ ai) × (ai_can_write (hub_run 2 (quiet_hub manual) ai_session).state.mode ≡ true)
unfolding hub_run hub_step handoff begin_takeover check
hub_run-exclusive_example =
    hub_run-exclusive 2 manual ai_session 0 1 ai ai (omega arith) (omega arith) refl refl

-- The repository's own test: the AI cannot hand the target to itself.
ai_cannot_handoff :
    handoff (new manual) (record { actor = ai; trusted = false }) ai_autonomous
    ≡ (new manual, some not_trusted_human)
unfolding handoff
ai_cannot_handoff = refl
