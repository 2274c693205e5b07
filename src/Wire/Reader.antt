-- ===== src/Wire/Reader.antt =====
-- `Reader`, the payload cursor of pinbridge-proto/src/lib.rs, with `put_u32` and `put_u64`.
pub mod RoundTrip
pub mod Fields
use pin_bridge.Common.{
  ℕ, ◌+◌, ◌-◌, ◌%◌, ◌≤◌, List, [], ◌∷◌, ◌++◌, ◌||◌, Option, none, some, length, take, drop,
  get_elem?, ltb, if◌then◌else◌, u64_mod,
}
use pin_bridge.Wire.Bytes.{le_bytes, from_le_bytes}

pub record Reader : Type 0 where
  pub bytes : List ℕ
  pub pos : ℕ

unfoldable pub put_u32 : List ℕ → ℕ → List ℕ
put_u32 out value = out ++ le_bytes 4 value

unfoldable pub put_u64 : List ℕ → ℕ → List ℕ
put_u64 out value = out ++ le_bytes 8 value

unfoldable pub new : List ℕ → Reader
new bytes = record { bytes = bytes; pos = 0 }

-- `bytes.get(lo..hi)`.
abbrev pub get_range : List ℕ → ℕ → ℕ → Option (List ℕ)
get_range bytes lo hi =
    if ltb hi lo || ltb (length bytes) hi then none else some (take (hi - lo) (drop lo bytes))

-- The common body of `u16`, `u32` and `u64`. A position is within the buffer, and a buffer within
-- half the address space, so `pos + width` does not wrap.
unfoldable pub read_le : ℕ → Reader → Option ℕ × Reader
read_le width r = elim (get_range r.bytes r.pos (r.pos + width)) [
  | none ↦ (none, r)
  | some slice ↦ (some (from_le_bytes slice), record r { pos = r.pos + width })
]

unfoldable pub u8 : Reader → Option ℕ × Reader
u8 r = elim (get_elem? r.bytes r.pos) [
  | none ↦ (none, r)
  | some v ↦ (some v, record r { pos = r.pos + 1 })
]

unfoldable pub u16 : Reader → Option ℕ × Reader
unfolding read_le
u16 r = read_le 2 r

unfoldable pub u32 : Reader → Option ℕ × Reader
unfolding read_le
u32 r = read_le 4 r

unfoldable pub u64 : Reader → Option ℕ × Reader
unfolding read_le
u64 r = read_le 8 r

-- `count` comes from the wire, so the addition may wrap.
unfoldable pub skip : ℕ → Reader → Option (Unit {0}) × Reader
skip count r = elim (get_range r.bytes r.pos ((r.pos + count) % u64_mod)) [
  | none ↦ (none, r)
  | some _ ↦ (some tt, record r { pos = (r.pos + count) % u64_mod })
]

-- `&self.bytes[self.pos..]`: `none` is the panic of a position past the end.
unfoldable pub remaining : Reader → Option (List ℕ)
remaining r = get_range r.bytes r.pos (length r.bytes)
