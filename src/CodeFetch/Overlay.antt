-- ===== src/CodeFetch/Overlay.antt =====
-- Code memory byte by byte, with the scripts' segments laid over it.
use pin_bridge.Common.{
  ℕ, zero, suc, ◌+◌, ◌-◌, ◌≤◌, ◌<◌, ◌≡◌, refl, ap, ◌∙◌, List, [], ◌∷◌, ◌++◌, ◌&&◌, ◌⊎◌, inl, inr,
  Option-cases, Option, none, some, arith, length, get_elem?, get_elem?_of_lt, take, drop,
  drop-eq-cons, ltb, leb, if◌then◌else◌, u64_mod,
}
use pin_bridge.CodeFetch.{NativeSegment}

-- A byte and those behind it, or none.
abbrev then_bytes : Option ℕ → List ℕ → List ℕ
then_bytes none rest = []
then_bytes (some b) rest = b ∷ rest

-- The bytes from an address on, up to a count or the first address that has none.
unfoldable pub readable : (ℕ → Option ℕ) → ℕ → ℕ → List ℕ
readable memory address zero = []
readable memory address (suc n) = then_bytes (memory address) (readable memory (suc address) n)

-- What an address holds: the byte of the segment that has it, or that of the program's code.
unfoldable pub overlay : List NativeSegment → (ℕ → Option ℕ) → ℕ → Option ℕ
overlay [] memory address = memory address
overlay (s ∷ ss) memory address =
    let under = overlay ss memory address in
    if leb s.start address && ltb address s.end
    then get_elem? s.bytes (address - s.start)
    else under

-- Segments in order, apart from each other, with their bytes, below 2^64.
abbrev pub Ordered : ℕ → List NativeSegment → Type 0
Ordered lo [] = Unit
Ordered lo (s ∷ ss) =
    (lo ≤ s.start)
    × (s.start < s.end)
    × (s.end ≡ s.start + length s.bytes)
    × (s.end < u64_mod)
    × Ordered s.end ss

pub length-readable-le :
    (memory : ℕ → Option ℕ) (address n : ℕ) → length (readable memory address n) ≤ n
unfolding readable
length-readable-le memory address zero = omega arith
length-readable-le memory address (suc n) = elim (Option-cases (memory address)) [
  | inl e ↦ rw e (omega arith)
  | inr (b, e) ↦ rw e (omega (arith, length-readable-le memory (suc address) n))
]

-- Two memories that agree on a range read alike there.
pub readable-agree :
    (f g : ℕ → Option ℕ) (address n : ℕ)
    → ((x : ℕ) → address ≤ x → x < address + n → f x ≡ g x)
    → readable f address n ≡ readable g address n
unfolding readable
readable-agree f g address zero same = refl
readable-agree f g address (suc n) same =
    rw
      (
        same address (omega arith) (omega arith),
        readable-agree f g (suc address) n (λ x lo hi. same x (omega arith) (omega arith)),
      )
      refl

-- A read that is full goes on behind it; one that is short is all there is.
pub readable-split :
    (memory : ℕ → Option ℕ) (address n m : ℕ)
    → ((length (readable memory address n) ≡ n)
        × (readable memory address (n + m)
            ≡ readable memory address n ++ readable memory (address + n) m))
      ⊎ ((length (readable memory address n) < n)
          × (readable memory address (n + m) ≡ readable memory address n))
unfolding readable
readable-split memory address zero m =
    let e : 0 + m ≡ m = omega arith in
    let e' : address + 0 ≡ address = omega arith in inl (refl, rw (e, e') refl)
readable-split memory address (suc n) m =
    let e : suc n + m ≡ suc (n + m) = omega arith in
    let e' : address + suc n ≡ suc address + n = omega arith in
    elim (Option-cases (memory address)) [
      | inl stop ↦ inr (rw (stop) (omega arith), rw (e, stop) refl)
      | inr (b, here) ↦ elim (readable-split memory (suc address) n m) [
        | inl (full, more) ↦ inl (rw here (ap suc full), rw (e, e', here, more) refl)
        | inr (short, all) ↦ inr (rw here (omega (arith, short)), rw (e, here, all) refl)
      ]
    ]

-- A segment's own bytes are what its addresses hold.
pub readable-bytes :
    (memory : ℕ → Option ℕ) (address : ℕ) (bytes : List ℕ) (offset n : ℕ)
    → ((x : ℕ) → address ≤ x → x < address + n → memory x ≡ get_elem? bytes (x - address + offset))
    → offset + n ≤ length bytes
    → readable memory address n ≡ take n (drop offset bytes)
unfolding readable
readable-bytes memory address bytes offset zero same h = refl
readable-bytes memory address bytes offset (suc n) same h =
    let (b, e) = get_elem?_of_lt bytes offset (omega arith) in
    let here : memory address ≡ some b =
      same address (omega arith) (omega arith)
      ∙ ap (get_elem? bytes) (let z : address - address + offset ≡ offset = omega arith in z)
      ∙ e in
    let rest =
      readable-bytes memory (suc address) bytes (offset + 1) n
        (λ x lo hi.
          let z : x - address + offset ≡ x - suc address + (offset + 1) = omega arith in
          same x (omega arith) (omega arith) ∙ ap (get_elem? bytes) z)
        (omega arith) in
    rw (here, drop-eq-cons bytes offset b e, rest) refl
