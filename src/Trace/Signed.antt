-- ===== src/Trace/Signed.antt =====
-- Rust's `as i64` and `as u64` between the 64-bit widths, and the tests on `i64`.
use pin_bridge.Common.{
  ℕ, ◌-◌, ◌^◌, ◌<◌, ◌≡◌, ◌↔◌, refl, Bool, true, false, arith, ltb, ◌==◌, if◌then◌else◌, u64_mod,
}

-- `negsuc n` is `-(n + 1)`.
pub data ℤ : Type 0 where
  pos negsuc : ℕ → ℤ

unfoldable pub as_i64 : ℕ → ℤ
as_i64 a = if ltb a (2 ^ 63) then pos a else negsuc (u64_mod - 1 - a)

unfoldable pub as_u64 : ℤ → ℕ
as_u64 (pos n) = n
as_u64 (negsuc n) = u64_mod - 1 - n

unfoldable pub equals : ℤ → ℤ → Bool
equals (pos m) (pos n) = m == n
equals (negsuc m) (negsuc n) = m == n
equals _ _ = false

unfoldable pub less : ℤ → ℤ → Bool
less (pos m) (pos n) = ltb m n
less (pos m) (negsuc n) = false
less (negsuc m) (pos n) = true
less (negsuc m) (negsuc n) = ltb n m

pub as_u64-as_i64 : (a : ℕ) → a < 2 ^ 64 → as_u64 (as_i64 a) ≡ a
unfolding as_u64 as_i64
as_u64-as_i64 a h = ground arith

pub equals-as_i64 : (a b : ℕ) → a < 2 ^ 64 → b < 2 ^ 64 → equals (as_i64 a) (as_i64 b) ≡ (a == b)
unfolding equals as_i64
equals-as_i64 a b ha hb = ground arith

pub less-pos : (a b : ℕ) → less (pos a) (pos b) ≡ ltb a b
unfolding less
less-pos a b = refl

pub equals_iff : (i j : ℤ) → (equals i j ≡ true) ↔ (i ≡ j)
unfolding equals
equals_iff (pos m) (pos n) = ground arith
equals_iff (pos m) (negsuc n) = ground arith
equals_iff (negsuc m) (pos n) = ground arith
equals_iff (negsuc m) (negsuc n) = ground arith

pub equals-pos : (n k : ℕ) → k < 2 ^ 63 → equals (pos n) (as_i64 k) ≡ (n == k)
unfolding equals as_i64
equals-pos n k h = ground arith
