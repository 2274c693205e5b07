-- ===== src/Stepper/Replay.antt =====
-- Replays of the start of a step: which callback is suppressed.
use pin_bridge.Common.{
  ℕ, ◌+◌, ◌≡◌, List, [], ◌∷◌, Bool, true, false, ◌&&◌, ◌||◌, not, ◌==◌, if◌then◌else◌, arith,
  Bool-cases, inl, inr,
}
use pin_bridge.Stepper.{Stepper, consume_start_replay}
use pin_bridge.Stepper.Claims.{Call}

-- How many callbacks, each of a thread at an address, are taken for the replay of the start.
pub replays : Stepper → List Call → ℕ
replays s [] = 0
replays s ((t, address) ∷ calls) =
    let (s', replayed) = consume_start_replay s t address in
    let rest = replays s' calls in if replayed then 1 + rest else rest

abbrev pub any_at_start : Stepper → List Call → Bool
any_at_start s [] = false
any_at_start s ((t, address) ∷ calls) =
    if s.step_tid == t && s.start_ip == address then true else any_at_start s calls

consume_start_replay-other :
    (s : Stepper) (t address : ℕ)
    → s.step_tid == t && s.start_ip == address ≡ false
    → consume_start_replay s t address ≡ (s, false)
unfolding consume_start_replay
consume_start_replay-other s t address h =
    let out : not s.stepping || (not (s.step_tid == t) || not (s.start_ip == address)) ≡ true =
      ground arith in
    rw out

consume_start_replay-mine :
    (s : Stepper) (t address : ℕ)
    → s.stepping ≡ true
    → s.step_tid == t && s.start_ip == address ≡ true
    → consume_start_replay s t address ≡ (record s { replay_pending = false }, s.replay_pending)
unfolding consume_start_replay
consume_start_replay-mine s t address live h =
    let here : not s.stepping || (not (s.step_tid == t) || not (s.start_ip == address)) ≡ false =
      ground arith in
    rw here

-- While a step is armed, any callbacks at any addresses of any threads: the replay of the start
-- instruction is suppressed once if its thread comes back to it with the replay pending, and never
-- otherwise, so a jump of an instruction to itself is seen the second time.
pub replays_lem :
    (s : Stepper) (calls : List Call)
    → s.stepping ≡ true
    → replays s calls ≡ (if s.replay_pending && any_at_start s calls then 1 else 0)
unfolding replays
replays_lem s [] live = ground arith
replays_lem s ((t, address) ∷ calls) live =
    elim (Bool-cases (s.step_tid == t && s.start_ip == address)) [
      | inl here ↦
          let rest = replays_lem (record s { replay_pending = false }) calls live in
          rw (consume_start_replay-mine s t address live here, here, rest) (ground arith)
      | inr away ↦ rw (consume_start_replay-other s t address away, away) (replays_lem s calls live)
    ]
