-- ===== src/Stepper/Claims.antt =====
-- Landings of a step: who claims a candidate.
use pin_bridge.Common.{
  ℕ, ◌≡◌, refl, ap, List, [], ◌∷◌, Bool, true, false, ◌&&◌, ◌||◌, not, Option, none, some, ltb, leb,
  ◌==◌, if◌then◌else◌, min, arith, Bool-cases, inl, inr,
}
use pin_bridge.Stepper.{Stepper, is_decoded, max_candidates, disarm_tf_compat, claim_candidate}

abbrev pub Call : Type 0
Call = ℕ × ℕ

abbrev landed : Option ℕ → List ℕ → List ℕ
landed none rest = rest
landed (some address) rest = address ∷ rest

-- The addresses that a sequence of claims, each of an index by a thread, lands on.
pub landings : Stepper → List Call → List ℕ
landings s [] = []
landings s ((index, t) ∷ calls) =
    landed (claim_candidate s index t).1 (landings (claim_candidate s index t).0 calls)

-- A claim that the step is waiting for.
abbrev pub awaited : Stepper → ℕ → ℕ → Bool
awaited s index t =
    ltb index (min s.candidate_count max_candidates)
    && (is_decoded s.mode && (s.step_tid == t && not (s.candidates index == 0)))

abbrev pub first_awaited : Stepper → List Call → List ℕ
first_awaited s [] = []
first_awaited s ((index, t) ∷ calls) =
    if awaited s index t then s.candidates index ∷ [] else first_awaited s calls

disarm_tf_compat-stepping : (s : Stepper) (t : ℕ) → (disarm_tf_compat s t).stepping ≡ s.stepping
unfolding disarm_tf_compat
disarm_tf_compat-stepping s t = elim (Bool-cases (s.compat_tid == t)) [
  | inl same ↦ rw same refl
  | inr other ↦ rw other refl
]

pub claim_candidate-awaited :
    (s : Stepper) (index t : ℕ)
    → s.stepping ≡ true
    → awaited s index t ≡ true
    → claim_candidate s index t
      ≡ (disarm_tf_compat (record s { stepping = false }) t, some (s.candidates index))
unfolding claim_candidate
claim_candidate-awaited s index t live h =
    let fits : leb (min s.candidate_count max_candidates) index
          || (not (is_decoded s.mode) || not (s.step_tid == t))
        ≡ false =
      ground arith in
    let there : s.candidates index == 0 || not s.stepping ≡ false = ground arith in rw (fits, there)

pub claim_candidate-other :
    (s : Stepper) (index t : ℕ)
    → s.stepping && awaited s index t ≡ false
    → claim_candidate s index t ≡ (s, none)
unfolding claim_candidate
claim_candidate-other s index t h =
    elim (Bool-cases (
      leb (min s.candidate_count max_candidates) index
      || (not (is_decoded s.mode) || not (s.step_tid == t)))) [
        | inl out ↦ rw out
        | inr fits ↦
            let gone : s.candidates index == 0 || not s.stepping ≡ true = ground arith in
            rw (fits, gone)
      ]

landings-idle : (s : Stepper) (calls : List Call) → s.stepping ≡ false → landings s calls ≡ []
unfolding landings
landings-idle s [] off = refl
landings-idle s ((index, t) ∷ calls) off =
    let idle : s.stepping && awaited s index t ≡ false = ground arith in
    rw (claim_candidate-other s index t idle) (landings-idle s calls off)

-- While a step is armed, of any sequence of claims by any threads, the first one that the step is
-- waiting for lands, at its candidate, and no other does: one of the candidates that were
-- published, other than 0, by the thread of the step.
pub landings_lem :
    (s : Stepper) (calls : List Call) → s.stepping ≡ true → landings s calls ≡ first_awaited s calls
unfolding landings
landings_lem s [] live = refl
landings_lem s ((index, t) ∷ calls) live = elim (Bool-cases (awaited s index t)) [
  | inl mine ↦
      let after : Stepper = disarm_tf_compat (record s { stepping = false }) t in
      rw (claim_candidate-awaited s index t live mine, mine)
        (ap (◌∷◌ (s.candidates index))
          (landings-idle after calls (disarm_tf_compat-stepping (record s { stepping = false }) t)))
  | inr other ↦
      let idle : s.stepping && awaited s index t ≡ false = ground arith in
      rw (claim_candidate-other s index t idle, other) (landings_lem s calls live)
]
