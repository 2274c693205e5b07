-- ===== src/Wire/Bytes.antt =====
-- `to_le_bytes` and `from_le_bytes` of the unsigned integers, by width in bytes.
use pin_bridge.Common.{
  ℕ, zero, suc, ◌+◌, ◌*◌, ◌/◌, ◌%◌, ◌^◌, ◌<◌, ◌≡◌, refl, ap, List, [], ◌∷◌, arith, length, take,
  drop, All,
}
use native.Mathlib.Nat.{pow-suc}

-- The `w` bytes of `v`, the least significant one first; what lies above them is cut off.
unfoldable pub le_bytes : ℕ → ℕ → List ℕ
le_bytes zero v = []
le_bytes (suc w) v = (v % 256) ∷ le_bytes w (v / 256)

unfoldable pub from_le_bytes : List ℕ → ℕ
from_le_bytes [] = 0
from_le_bytes (b ∷ bs) = b + 256 * from_le_bytes bs

-- `bytes[i..i + w]` as a number.
unfoldable pub le_at : ℕ → List ℕ → ℕ → ℕ
le_at w bytes i = from_le_bytes (take w (drop i bytes))

pub length-le_bytes : (w v : ℕ) → length (le_bytes w v) ≡ w
unfolding le_bytes
length-le_bytes zero v = refl
length-le_bytes (suc w) v = ap suc (length-le_bytes w (v / 256))

pub from_le_bytes-le_bytes : (w v : ℕ) → v < 256 ^ w → from_le_bytes (le_bytes w v) ≡ v
unfolding le_bytes from_le_bytes
from_le_bytes-le_bytes zero v h = omega arith
from_le_bytes-le_bytes (suc w) v h =
    omega (arith, from_le_bytes-le_bytes w (v / 256) (omega (arith, pow-suc 256 w)))

-- A buffer holds bytes.
abbrev pub AreBytes : List ℕ → Type 0
AreBytes = All (λ b. b < 256)

pub le_bytes-AreBytes : (w v : ℕ) → AreBytes (le_bytes w v)
unfolding le_bytes
le_bytes-AreBytes zero v = tt
le_bytes-AreBytes (suc w) v = (omega arith, le_bytes-AreBytes w (v / 256))

pub le_bytes-from_le_bytes :
    (w : ℕ) (bs : List ℕ)
    → length bs ≡ w
    → AreBytes bs
    → (le_bytes w (from_le_bytes bs) ≡ bs) × (from_le_bytes bs < 256 ^ w)
unfolding le_bytes from_le_bytes
le_bytes-from_le_bytes zero [] e h = (refl, omega arith)
le_bytes-from_le_bytes (suc w) [] e h = absurd (omega arith)
le_bytes-from_le_bytes zero (b ∷ bs) e h = absurd (omega arith)
le_bytes-from_le_bytes (suc w) (b ∷ bs) e h =
    let (back, bound) = le_bytes-from_le_bytes w bs (omega arith) h.1 in
    let low : (b + 256 * from_le_bytes bs) % 256 ≡ b = omega arith in
    let high : (b + 256 * from_le_bytes bs) / 256 ≡ from_le_bytes bs = omega arith in
    (rw (low, high) (ap (◌∷◌ b) back), omega (arith, pow-suc 256 w))
