-- ===== src/Wire/Reader/RoundTrip.antt =====
-- What the cursor reads, and where it stands.
use pin_bridge.Common.{
  ℕ, zero, suc, ◌+◌, ◌-◌, ◌^◌, ◌≤◌, ◌<◌, ◌≡◌, refl, ◌⊎◌, inl, inr, List, [], ◌∷◌, Option, none,
  some, arith, length, drop, get_elem?, get_elem?_of_lt, All, u64_mod, length-drop, take_all,
  Bool-cases, ltb,
}
use pin_bridge.Wire.Reader.{Reader, new, read_le, u8, u16, u32, u64, skip, remaining}

-- One call of a client on its cursor.
pub data Call : Type 0 where
  reads_u8 reads_u16 reads_u32 reads_u64 : Call
  skips : ℕ → Call

abbrev pub width : Call → ℕ
width reads_u8 = 1
width reads_u16 = 2
width reads_u32 = 4
width reads_u64 = 8
width (skips n) = n

-- The cursor after a call, `none` when the call returned `None`.
abbrev pub passed {ℓ} : {A : Type ℓ} → Option A × Reader → Option Reader
passed (none, r) = none
passed (some v, r) = some r

unfoldable pub call : Call → Reader → Option Reader
unfolding u8 u16 u32 u64 skip
call reads_u8 r = passed (u8 r)
call reads_u16 r = passed (u16 r)
call reads_u32 r = passed (u32 r)
call reads_u64 r = passed (u64 r)
call (skips n) r = passed (skip n r)

-- Calls chained by `?`.
unfoldable pub run : List Call → Reader → Option Reader
run [] r = some r
run (c ∷ cs) r = elim (call c r) [ none ↦ none | some r' ↦ run cs r' ]

-- A cursor that stands within a buffer of possible size.
pub record IsValid (r : Reader) : Type 0 where
  pub within : r.pos ≤ length r.bytes
  pub possible : length r.bytes < 2 ^ 63

get_elem?-none : (xs : List ℕ) (i : ℕ) → length xs ≤ i → get_elem? xs i ≡ none
get_elem?-none [] i h = refl
get_elem?-none (x ∷ xs) zero h = absurd (omega arith)
get_elem?-none (x ∷ xs) (suc i) h = get_elem?-none xs i (omega arith)

abbrev Moves : Reader → ℕ → Option Reader → Type 0
Moves r n o =
    ((r.pos + n ≤ length r.bytes) × (o ≡ some (record r { pos = r.pos + n })))
    ⊎ ((length r.bytes < r.pos + n) × (o ≡ none))

read_le-Moves : (n : ℕ) (r : Reader) → IsValid r → Moves r n (passed (read_le n r))
unfolding read_le
read_le-Moves n r v = ground arith

u8-Moves : (r : Reader) → IsValid r → Moves r 1 (passed (u8 r))
unfolding u8
u8-Moves r v = elim (Bool-cases (ltb r.pos (length r.bytes))) [
  | inl h ↦
      let (x, e) = get_elem?_of_lt r.bytes r.pos (ground arith) in
      inl (ground arith, rw (e, u8, passed))
  | inr h ↦ inr (ground arith, rw (get_elem?-none r.bytes r.pos (ground arith), u8, passed))
]

skip-Moves : (n : ℕ) (r : Reader) → n < u64_mod → IsValid r → Moves r n (passed (skip n r))
unfolding skip
skip-Moves n r small v = ground arith

-- A call moves the cursor by exactly its width when that many bytes are left, a skip of any
-- 64-bit count included, and otherwise returns `None`.
pub call_moves :
    (c : Call) (r : Reader)
    → width c < u64_mod
    → IsValid r
    → ((r.pos + width c ≤ length r.bytes) × (call c r ≡ some (record r { pos = r.pos + width c })))
      ⊎ ((length r.bytes < r.pos + width c) × (call c r ≡ none))
unfolding call
call_moves reads_u8 r small v = u8-Moves r v
call_moves reads_u16 r small v = read_le-Moves 2 r v
call_moves reads_u32 r small v = read_le-Moves 4 r v
call_moves reads_u64 r small v = read_le-Moves 8 r v
call_moves (skips n) r small v = skip-Moves n r small v

abbrev pub total_width : List Call → ℕ
total_width [] = 0
total_width (c ∷ cs) = width c + total_width cs

run-pos :
    (cs : List Call) (r r' : Reader)
    → IsValid r
    → All (λ c. width c < u64_mod) cs
    → run cs r ≡ some r'
    → (r'.bytes ≡ r.bytes) × (r'.pos ≡ r.pos + total_width cs) × (r'.pos ≤ length r.bytes)
unfolding run
run-pos [] r r' v small h = ground arith
run-pos (c ∷ cs) r r' v small h = elim (call_moves c r small.0 v) [
  | inl (fits, e) ↦
      let moved = record r { pos = r.pos + width c } in
      let v' : IsValid moved = record { within = fits; possible = v.possible } in
      let (b, p, q) = run-pos cs moved r' v' small.1 (rw (e, run) at h) in (b, omega arith, q)
  | inr (_, e) ↦ ground arith
]

-- After calls that all succeeded on a new cursor, `remaining` does not panic: it returns the
-- buffer without the bytes of the calls, which were all there.
pub remaining-run :
    (cs : List Call) (bytes : List ℕ) {r : Reader}
    → length bytes < 2 ^ 63
    → All (λ c. width c < u64_mod) cs
    → run cs (new bytes) ≡ some r
    → (total_width cs ≤ length bytes) × (remaining r ≡ some (drop (total_width cs) bytes))
unfolding remaining new
remaining-run cs bytes {r} size small h =
    let (b, p, q) =
      run-pos cs (new bytes) r (record { within = omega arith; possible = size }) small h in
    ground
      (arith, take_all (length r.bytes - r.pos) (drop r.pos r.bytes), length-drop r.pos r.bytes)
