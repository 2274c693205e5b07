-- ===== src/Common/Totals.antt =====
-- Sums over the threads below a number, each counted by its state.
use Prim.Native.Nat.{ℕ, zero, suc, ◌+◌, ◌≤◌, ◌<◌}
use mathlib.Core.Path.{◌≡◌, refl}
use native.Mathlib.Omega.{arith}
use native.Mathlib.Decide.{dec_lt}
use pin_bridge.Common.Tests.{update}

module _ {A : Type 0} (weight : A → ℕ) where
  pub sum_over : ℕ → (ℕ → A) → ℕ
  sum_over zero f = 0
  sum_over (suc n) f = sum_over n f + weight (f n)

  sum_over-update_of_le :
      (n : ℕ) (f : ℕ → A) (i : ℕ) (p : A) → n ≤ i → sum_over n (update f i p) ≡ sum_over n f
  unfolding sum_over
  sum_over-update_of_le zero f i p h = refl
  sum_over-update_of_le (suc n) f i p h = ground (arith, sum_over-update_of_le n f i p)

  pub sum_over-update :
      (n : ℕ) (f : ℕ → A) (i : ℕ) (p : A)
      → i < n
      → sum_over n (update f i p) + weight (f i) ≡ sum_over n f + weight p
  unfolding sum_over
  sum_over-update zero f i p h = absurd (omega arith)
  sum_over-update (suc n) f i p h = elim (dec_lt i n) [
    | yes below ↦
        let other : update f i p n ≡ f n = ground arith in
        rw other (omega (arith, sum_over-update n f i p below))
    | no last ↦
        let here : i ≡ n = omega arith in
        let mine : update f i p n ≡ p = ground arith in
        rw mine (rw (← here) (omega (arith, sum_over-update_of_le i f i p)))
  ]

  pub weight_of_sum_over : (n : ℕ) (f : ℕ → A) (i : ℕ) → i < n → weight (f i) ≤ sum_over n f
  unfolding sum_over
  weight_of_sum_over zero f i h = absurd (omega arith)
  weight_of_sum_over (suc n) f i h = elim (dec_lt i n) [
    | yes below ↦ omega (arith, weight_of_sum_over n f i below)
    | no last ↦ let here : i ≡ n = omega arith in rw here (omega arith)
  ]

  pub sum_over_zero : (n : ℕ) (p : A) → weight p ≡ 0 → sum_over n (λ _. p) ≡ 0
  unfolding sum_over
  sum_over_zero zero p z = refl
  sum_over_zero (suc n) p z = omega (arith, sum_over_zero n p z)
