-- ===== src/Stepper/Candidates.antt =====
-- The candidates of a step against the addresses that were asked for.
use pin_bridge.Common.{
  ℕ, zero, suc, ◌+◌, ◌<◌, ◌≡◌, refl, sym, ap, ◌∙◌, List, [], ◌∷◌, Bool, true, false, ◌&&◌, not,
  Option, none, some, ltb, ◌==◌, if◌then◌else◌, min, length, get_or, take, length-take, arith,
  Bool-cases, inl, inr, ◌⊎◌,
}
use pin_bridge.Stepper.{
  Stepper, decoded, max_candidates, publish_candidates, find_candidate, candidate_index, is_claimed,
  claim_found, claim_candidate, claim_breakpoint,
}
use pin_bridge.Stepper.Claims.{awaited, claim_candidate-awaited, claim_candidate-other}

abbrev pub among : List ℕ → ℕ → Bool
among [] address = false
among (a ∷ addresses) address = if a == address then true else among addresses address

-- What the search of the candidates finds, where they hold the addresses from `index` on.
abbrev Found : Stepper → ℕ → ℕ → List ℕ → Type 0
Found s address index addresses =
    ((among addresses address ≡ false) × (find_candidate s address (length addresses) index ≡ none))
    ⊎ ((k : ℕ) × (k < index + length addresses)
        × (s.candidates k ≡ address)
        × (among addresses address ≡ true)
        × (find_candidate s address (length addresses) index ≡ some k))

find_candidate-Found :
    (s : Stepper) (address index : ℕ) (addresses : List ℕ)
    → ((i : ℕ) → i < length addresses → s.candidates (index + i) ≡ get_or addresses i 0)
    → Found s address index addresses
unfolding find_candidate
find_candidate-Found s address index [] h = inl (refl, refl)
find_candidate-Found s address index (a ∷ addresses) h =
    let here : index + 0 ≡ index = omega arith in
    let first : s.candidates index ≡ a = rw here at (h 0 (omega arith)) in
    elim (Bool-cases (a == address)) [
      | inl same ↦
          let is_it : s.candidates index ≡ address = ground arith in
          inr (index, omega arith, is_it, rw same refl, rw (first, same) refl)
      | inr other ↦
          elim (find_candidate-Found s address (index + 1) addresses (λ i lt.
            let next : index + suc i ≡ index + 1 + i = omega arith in
            rw next at (h (suc i) (omega arith)))) [
              | inl none_found ↦ inl (rw other none_found.0, rw (first, other) none_found.1)
              | inr (k, lt, at_k, listed, found) ↦
                  inr (k, omega arith, at_k, rw other listed, rw (first, other) found)
            ]
    ]

get_or-take : (n i d : ℕ) (xs : List ℕ) → i < n → get_or (take n xs) i d ≡ get_or xs i d
get_or-take zero i d xs h = absurd (omega arith)
get_or-take (suc n) i d [] h = refl
get_or-take (suc n) zero d (x ∷ xs) h = refl
get_or-take (suc n) (suc i) d (x ∷ xs) h = get_or-take n i d xs (omega arith)

rejected : (a b c : Bool) → c ≡ false → (a && (not b && c)) ≡ false
rejected a b c h = ground arith

accepted : (a b c : Bool) → c ≡ true → (a && not b) ≡ (a && (not b && c))
accepted a b c h = ground arith

is_claimed-awaited :
    (s : Stepper) (index t : ℕ)
    → s.stepping ≡ true
    → (is_claimed (claim_candidate s index t)).1 ≡ awaited s index t
is_claimed-awaited s index t live = elim (Bool-cases (awaited s index t)) [
  | inl mine ↦ ap (λ r. (is_claimed r).1) (claim_candidate-awaited s index t live mine) ∙ sym mine
  | inr other ↦
      let idle : s.stepping && awaited s index t ≡ false = ground arith in
      ap (λ r. (is_claimed r).1) (claim_candidate-other s index t idle) ∙ sym other
]

module _ (s : Stepper) (t start_ip : ℕ) (first : ℕ) (others : List ℕ) where
  abbrev published : Stepper
  published = publish_candidates s t start_ip (first ∷ others)

  abbrev kept : List ℕ
  kept = take max_candidates (first ∷ others)

  -- The statics after `publish_candidates`.
  published_fields :
      (published.stepping ≡ true)
      × (published.mode ≡ decoded)
      × (published.step_tid ≡ t)
      × (min published.candidate_count max_candidates ≡ length kept)
      × ((i : ℕ) → i < length kept → published.candidates (0 + i) ≡ get_or kept i 0)
  unfolding publish_candidates
  published_fields =
      let more : min (suc (length others)) max_candidates == 0 ≡ false = ground arith in
      (
        rw more refl,
        refl,
        refl,
        omega (arith, length-take max_candidates (first ∷ others)),
        λ i lt.
            let e : 0 + i ≡ i = omega arith in
            let small : i < max_candidates =
              omega (arith, length-take max_candidates (first ∷ others)) in
            let inside : ltb i max_candidates ≡ true = ground arith in
            rw (e, inside) (sym (get_or-take max_candidates i 0 (first ∷ others) small)),
      )

  candidate_index-published :
      (address : ℕ) (o : Option ℕ)
      → find_candidate published address (length kept) 0 ≡ o
      → candidate_index published address ≡ o
  unfolding candidate_index
  candidate_index-published address o h =
      let (live, mode, tid, rounds, holds) = published_fields in rw (live, mode, rounds) h

  -- After `publish_candidates`, a breakpoint is claimed exactly by the thread of the step at one of
  -- the first three candidates, other than 0; every other hit is left to its breakpoint.
  pub claim_breakpoint-published :
      (u address : ℕ)
      → (claim_breakpoint published u address).1
        ≡ (t == u && (not (address == 0) && among kept address))
  unfolding claim_breakpoint
  claim_breakpoint-published u address =
      let (live, mode, tid, rounds, holds) = published_fields in
      elim (find_candidate-Found published address 0 kept holds) [
        | inl (unlisted, not_found) ↦
            ap (λ o. (claim_found published u o).1)
              (candidate_index-published address none not_found)
            ∙ sym (rejected (t == u) (address == 0) (among kept address) unlisted)
        | inr (k, lt, at_k, listed, found) ↦
            let inside : ltb k (length kept) ≡ true = ground arith in
            let mine : awaited published k u ≡ (t == u && not (address == 0)) =
              rw (rounds, inside, mode, tid, at_k) refl in
            ap (λ o. (claim_found published u o).1)
              (candidate_index-published address (some k) found)
            ∙ is_claimed-awaited published k u live
            ∙ mine
            ∙ accepted (t == u) (address == 0) (among kept address) listed
      ]
