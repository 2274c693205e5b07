-- ===== src/Trace/Import/Fill.antt =====
-- The inner loop of the import fills a record however the reads are cut up.
use pin_bridge.Common.{
  ℕ, zero, suc, ◌+◌, ◌-◌, ◌≤◌, ◌<◌, ◌≡◌, refl, ◌∙◌, List, [], ◌∷◌, ◌++◌, some, min, arith,
  append-nil, length, take, drop, length-append, length-take, take-nil, drop-nil, take-rest,
  append_assoc, lt→ltb, le→ltb, ok, Option, dec_lt,
}
use pin_bridge.Trace.Artifact.{record_len, Source, granted, read}
use pin_bridge.Trace.Import.{fill}

-- No call of `read` fails.
abbrev pub Steady : (ℕ → Option ℕ) → Type 0
Steady grants = (k : ℕ) → (more : ℕ) × (grants k ≡ some more)

abbrev pub at : List ℕ → ℕ → (ℕ → Option ℕ) → Source
at rest calls grants = record { rest = rest; calls = calls; grants = grants }

module _ (grants : ℕ → Option ℕ) (steady : Steady grants) where
  fill_full :
      (fuel : ℕ) (filled rest : List ℕ) (calls : ℕ)
      → record_len ≤ length filled
      → fill (suc fuel) filled (at rest calls grants)
        ≡ ok (
          filled ++ take (record_len - length filled) rest,
          at (drop (record_len - length filled) rest) calls grants,
        )
  unfolding fill
  fill_full fuel filled rest calls h =
      let e : record_len - length filled ≡ 0 = omega arith in
      rw (fill, le→ltb (length filled) 88 h, e, append-nil filled) refl

  fill_end :
      (fuel : ℕ) (filled : List ℕ) (calls : ℕ)
      → length filled < record_len
      → fill (suc fuel) filled (at [] calls grants) ≡ ok (filled, at [] (suc calls) grants)
  unfolding fill read granted
  fill_end fuel filled calls h =
      let (more, e) = steady calls in
      let w : record_len - length filled ≡ suc (87 - length filled) = omega arith in
      let m : min (suc (87 - length filled)) (suc more) ≡ suc (min (87 - length filled) more) =
        omega arith in
      rw (fill, lt→ltb (length filled) 88 h, read, e, granted, w, m) refl

  fill_next :
      (fuel : ℕ) (filled : List ℕ) (b : ℕ) (bs : List ℕ) (calls : ℕ)
      → length filled < record_len
      → (n : ℕ) × (n < record_len - length filled)
        × (fill (suc fuel) filled (at (b ∷ bs) calls grants)
            ≡ fill fuel (filled ++ b ∷ take n bs) (at (drop n bs) (suc calls) grants))
  unfolding fill read granted
  fill_next fuel filled b bs calls h =
      let (more, e) = steady calls in
      let w : record_len - length filled ≡ suc (87 - length filled) = omega arith in
      let n = min (87 - length filled) more in
      let m : min (suc (87 - length filled)) (suc more) ≡ suc n = omega arith in
      (n, omega arith, rw (fill, lt→ltb (length filled) 88 h, read, e, granted, w, m) refl)

  pub fill_lem :
      (fuel : ℕ) (filled rest : List ℕ) (calls : ℕ)
      → record_len ≤ length filled + fuel
      → length filled ≤ record_len
      → (calls' : ℕ) × (fill fuel filled (at rest calls grants)
          ≡ ok (
            filled ++ take (record_len - length filled) rest,
            at (drop (record_len - length filled) rest) calls' grants,
          ))
  unfolding fill read granted
  fill_lem zero filled rest calls enough small =
      let e : record_len - length filled ≡ 0 = omega arith in
      (calls, rw (e, append-nil filled) refl)
  fill_lem (suc fuel) filled [] calls enough small = elim (dec_lt (length filled) record_len) [
    | no h ↦ (calls, fill_full fuel filled [] calls (omega arith))
    | yes h ↦ (
      suc calls,
      fill_end fuel filled calls h
          ∙ rw (take-nil (88 - length filled), drop-nil (88 - length filled), append-nil filled)
              refl,
    )
  ]
  fill_lem (suc fuel) filled (b ∷ bs) calls enough small =
      elim (dec_lt (length filled) record_len) [
        | no h ↦ (calls, fill_full fuel filled (b ∷ bs) calls (omega arith))
        | yes h ↦
            let (n, lt, next) = fill_next fuel filled b bs calls h in
            let filled' = filled ++ b ∷ take n bs in
            let grown : length filled' ≡ length filled + suc (length (take n bs)) =
              length-append filled (b ∷ take n bs) in
            let part : length (take n bs) ≤ n = omega (arith, length-take n bs) in
            let (calls', e) =
              fill_lem fuel filled' (drop n bs) (suc calls) (omega arith) (omega arith) in
            let w : record_len - length filled ≡ suc (87 - length filled) = omega arith in
            let w' : record_len - length filled' ≡ 87 - length filled - length (take n bs) =
              omega arith in
            let (t, d) = take-rest bs n (87 - length filled) (omega arith) in
            (calls', next ∙ e ∙ rw (w', d, w, append_assoc filled (b ∷ take n bs) _, t) refl)
      ]
