-- ===== src/Wire/Reader/Fields.antt =====
-- Payloads of `u32` and `u64` fields, written by `put_u32` and `put_u64` and read by a cursor.
use pin_bridge.Common.{
  ℕ, ◌^◌, ◌<◌, ◌≡◌, refl, sym, ◌∙◌, ap, List, [], ◌∷◌, ◌++◌, Option, none, some, arith, length, map,
  All, length-append, append_assoc, append-nil, take-append_length, drop-append_length, take_all,
  ◌-◌,
}
use pin_bridge.Wire.Bytes.{le_bytes, from_le_bytes-le_bytes, length-le_bytes}
use pin_bridge.Wire.Reader.{Reader, put_u32, put_u64, new, read_le, u32, u64, remaining}

pub data Field : Type 0 where
  word long : ℕ → Field

abbrev pub Fits : Field → Type 0
Fits (word v) = v < 2 ^ 32
Fits (long v) = v < 2 ^ 64

abbrev pub value : Field → ℕ
value (word v) = v
value (long v) = v

-- The writes in order, as the server's handlers make them.
pub put_fields : List ℕ → List Field → List ℕ
put_fields out [] = out
put_fields out (word v ∷ fs) = put_fields (put_u32 out v) fs
put_fields out (long v ∷ fs) = put_fields (put_u64 out v) fs

abbrev read_next :
    Option ℕ × Reader → (Reader → Option (List ℕ × Reader)) → Option (List ℕ × Reader)
read_next (none, r) rest = none
read_next (some v, r) rest = elim (rest r) [ none ↦ none | some (vs, r') ↦ some (v ∷ vs, r') ]

-- The reads in order, chained by `?`, as the client's parsers make them.
pub read_fields : List Field → Reader → Option (List ℕ × Reader)
read_fields [] r = some ([], r)
read_fields (word _ ∷ fs) r = read_next (u32 r) (read_fields fs)
read_fields (long _ ∷ fs) r = read_next (u64 r) (read_fields fs)

images : List Field → List ℕ
images [] = []
images (word v ∷ fs) = le_bytes 4 v ++ images fs
images (long v ∷ fs) = le_bytes 8 v ++ images fs

put_fields-images : (fs : List Field) (out : List ℕ) → put_fields out fs ≡ out ++ images fs
unfolding put_fields images put_u32 put_u64
put_fields-images [] out = sym (append-nil out)
put_fields-images (word v ∷ fs) out =
    put_fields-images fs (out ++ le_bytes 4 v) ∙ append_assoc out (le_bytes 4 v) (images fs)
put_fields-images (long v ∷ fs) out =
    put_fields-images fs (out ++ le_bytes 8 v) ∙ append_assoc out (le_bytes 8 v) (images fs)

read_le-append :
    (w v : ℕ) (pre rest bytes : List ℕ)
    → v < 256 ^ w
    → bytes ≡ pre ++ (le_bytes w v ++ rest)
    → read_le w (record { bytes = bytes; pos = length pre })
      ≡ (some v, record { bytes = bytes; pos = length (pre ++ le_bytes w v) })
unfolding read_le
read_le-append w v pre rest bytes small e = ground (
  arith,
  ap length e,
  length-append pre (le_bytes w v ++ rest),
  length-append (le_bytes w v) rest,
  length-append pre (le_bytes w v),
  length-le_bytes w v,
  drop-append_length pre (le_bytes w v ++ rest) (length pre) refl,
  take-append_length (le_bytes w v) rest w,
  from_le_bytes-le_bytes w v small,
)

regroup :
    (pre item imgs rest bytes : List ℕ)
    → bytes ≡ pre ++ ((item ++ imgs) ++ rest)
    → bytes ≡ (pre ++ item) ++ (imgs ++ rest)
regroup pre item imgs rest bytes e = e ∙ simp append_assoc

read_next-step :
    (w v : ℕ) (pre imgs rest bytes : List ℕ) (read_rest : Reader → Option (List ℕ × Reader))
    (vs : List ℕ)
    → v < 256 ^ w
    → bytes ≡ pre ++ ((le_bytes w v ++ imgs) ++ rest)
    → read_rest (record { bytes = bytes; pos = length (pre ++ le_bytes w v) })
      ≡ some (vs, record { bytes = bytes; pos = length ((pre ++ le_bytes w v) ++ imgs) })
    → read_next (read_le w (record { bytes = bytes; pos = length pre })) read_rest
      ≡ some (v ∷ vs, record { bytes = bytes; pos = length (pre ++ (le_bytes w v ++ imgs)) })
read_next-step w v pre imgs rest bytes read_rest vs small e ih =
    let e' : bytes ≡ pre ++ (le_bytes w v ++ (imgs ++ rest)) =
      e ∙ ap (◌++◌ pre) (append_assoc (le_bytes w v) imgs rest) in
    rw (
      read_le-append w v pre (imgs ++ rest) bytes small e',
      read_next,
      ih,
      append_assoc pre (le_bytes w v) imgs,
    )

read_fields-images :
    (fs : List Field) (pre rest bytes : List ℕ)
    → All Fits fs
    → bytes ≡ pre ++ (images fs ++ rest)
    → read_fields fs (record { bytes = bytes; pos = length pre })
      ≡ some (map value fs, record { bytes = bytes; pos = length (pre ++ images fs) })
unfolding read_fields images u32 u64
read_fields-images [] pre rest bytes h e = rw append-nil
read_fields-images (word v ∷ fs) pre rest bytes h e =
    read_next-step 4 v pre (images fs) rest bytes (read_fields fs) (map value fs) h.0 e (
      read_fields-images fs (pre ++ le_bytes 4 v) rest bytes h.1
        (regroup pre (le_bytes 4 v) (images fs) rest bytes e))
read_fields-images (long v ∷ fs) pre rest bytes h e =
    read_next-step 8 v pre (images fs) rest bytes (read_fields fs) (map value fs) h.0 e (
      read_fields-images fs (pre ++ le_bytes 8 v) rest bytes h.1
        (regroup pre (le_bytes 8 v) (images fs) rest bytes e))

remaining-append :
    (pre rest bytes : List ℕ)
    → bytes ≡ pre ++ rest
    → remaining (record { bytes = bytes; pos = length pre }) ≡ some rest
unfolding remaining
remaining-append pre rest bytes e = ground (
  arith,
  ap length e,
  length-append pre rest,
  drop-append_length pre rest (length pre) refl,
  take_all (length bytes - length pre) rest,
)

-- The fields of a payload, each within its width, are read back in order by the reads that fit
-- them, and `remaining` is then exactly what follows the payload.
pub read_fields-put_fields :
    (fs : List Field) (rest : List ℕ)
    → All Fits fs
    → (r : Reader) × (read_fields fs (new (put_fields [] fs ++ rest)) ≡ some (map value fs, r))
      × (remaining r ≡ some rest)
unfolding new
read_fields-put_fields fs rest h =
    let bytes = put_fields [] fs ++ rest in
    let e : bytes ≡ images fs ++ rest = rw (put_fields-images fs []) in
    (
      record { bytes = bytes; pos = length (images fs) },
      read_fields-images fs [] rest bytes h e,
      remaining-append (images fs) rest bytes e,
    )
