-- ===== src/Journal/Ids.antt =====
-- The operation ids of the journal are as different as the numbers that they print.
use pin_bridge.Common.{
  ℕ, zero, suc, ◌+◌, ◌*◌, ◌/◌, ◌%◌, ◌-◌, ◌^◌, ◌<◌, ◌≡◌, ◌≢◌, refl, ap, ◌∙◌, [], ◌∷◌, reverse, true,
  false, ltb, if◌then◌else◌, u64_mod, arith, drop, ap₂, ℕ_discrete, Bool-cases, inl, inr,
}
use mathlib.Core.List.{reverse-reverse}
use native.Mathlib.Nat.{pow-suc}
use pin_bridge.Journal.{Text, same_text, digit, digits, operation_id_of}

-- What a digit stands for, and a number from its digits, the last one first.
abbrev undigit : ℕ → ℕ
undigit c = if ltb c 58 then c - 48 else c - 87

abbrev number_of : Text → ℕ
number_of [] = 0
number_of (c ∷ cs) = undigit c + 16 * number_of cs

undigit-digit : (d : ℕ) → d < 16 → undigit (digit d) ≡ d
unfolding digit
undigit-digit d h = ground arith

number_of-digits : (w n : ℕ) → n < 16 ^ w → number_of (digits w n) ≡ n
unfolding digits
number_of-digits zero n h = omega arith
number_of-digits (suc w) n h = omega (
  arith,
  undigit-digit (n % 16) (omega arith),
  number_of-digits w (n / 16) (omega (arith, pow-suc 16 w)),
)

abbrev id_number : Text → ℕ
id_number t = number_of (reverse (drop 3 t))

id_number-operation_id_of : (n : ℕ) → n < u64_mod → id_number (operation_id_of n) ≡ n
unfolding operation_id_of
id_number-operation_id_of n h =
    ap number_of (reverse-reverse (digits 16 n)) ∙ number_of-digits 16 n (omega arith)

pub operation_id_of-ne : (m n : ℕ) → m < n → n < u64_mod → operation_id_of m ≢ operation_id_of n
operation_id_of-ne m n h small e =
    let numbers : id_number (operation_id_of m) ≡ id_number (operation_id_of n) = ap id_number e in
    omega
      (arith, numbers, id_number-operation_id_of m (omega arith), id_number-operation_id_of n small)

pub same_text-eq : (s t : Text) → same_text s t ≡ true → s ≡ t
unfolding same_text
same_text-eq [] [] h = refl
same_text-eq [] (b ∷ bs) h = ground arith
same_text-eq (a ∷ cs) [] h = ground arith
same_text-eq (a ∷ cs) (b ∷ bs) h = elim (ℕ_discrete a b) [
  | yes e ↦ let rest : same_text cs bs ≡ true = ground arith in ap₂ ◌∷◌ e (same_text-eq cs bs rest)
  | no ne ↦ ground arith
]

pub same_text-ne : (s t : Text) → s ≢ t → same_text s t ≡ false
same_text-ne s t ne = elim (Bool-cases (same_text s t)) [
  | inl e ↦ absurd (ne (same_text-eq s t e))
  | inr e ↦ e
]
