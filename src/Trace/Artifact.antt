-- ===== src/Trace/Artifact.antt =====
-- The layout of a trace file: the header that record.rs writes, `open_trace` and the reads of
-- trace_query.rs.
pub mod Reads
use pin_bridge.Common.{
  ℕ, zero, suc, ◌+◌, ◌-◌, ◌*◌, ◌^◌, List, [], ◌∷◌, ◌++◌, Bool, false, not, ◌&&◌, ◌||◌, Option, none,
  some, min, length, take, drop, ltb, leb, ◌==◌, if◌then◌else◌, Result, ok, err, try_result,
}
use pin_bridge.Wire.Bytes.{le_bytes, le_at}
use pin_bridge.Trace.{HubError, validation, internal}

abbrev pub header_len : ℕ
header_len = 16

abbrev pub record_len : ℕ
record_len = 88

abbrev pub max_meta_len : ℕ
max_meta_len = 1024 * 1024

-- The four letters `PBTR`.
abbrev pub magic : List ℕ
magic = 80 ∷ 66 ∷ 84 ∷ 82 ∷ []

-- What `drain_main` writes before the first record: `(meta.len() as u32)` keeps the low 32 bits.
unfoldable pub header_image : List ℕ → List ℕ
header_image meta = magic ++ (le_bytes 4 1 ++ (le_bytes 4 (length meta) ++ (le_bytes 4 0 ++ meta)))

-- An open file: the bytes ahead, the calls of `read` so far, and by call how many bytes it grants
-- beyond the first, or none where it fails.
pub record Source : Type 0 where
  pub rest : List ℕ
  pub calls : ℕ
  pub grants : ℕ → Option ℕ

unfoldable pub granted : Source → ℕ → Option ℕ → Result HubError (List ℕ × Source)
granted s want none = err (internal "read")
granted s want (some more) =
    let n = min want (suc more) in
    ok (take n s.rest, record s { rest = drop n s.rest; calls = suc s.calls })

-- `Read::read`: some of the bytes ahead, and no byte only at the end of the file.
unfoldable pub read : Source → ℕ → Result HubError (List ℕ × Source)
unfolding granted
read s want = granted s want (s.grants s.calls)

-- `Read::read_exact`; a failed read and an early end have the same answer at both calls.
unfoldable pub read_exact : Source → ℕ → HubError → Result HubError (List ℕ × Source)
read_exact s n refusal =
    if leb n (length s.rest)
    then ok (take n s.rest, record s { rest = drop n s.rest })
    else err refusal

-- The letters `{}`.
abbrev pub empty_object : List ℕ
empty_object = 123 ∷ 125 ∷ []

-- Equality of the four bytes that are compared with the magic.
unfoldable pub is_magic : List ℕ → Bool
is_magic (a ∷ b ∷ c ∷ d ∷ []) = (a == 80) && (b == 66) && (c == 84) && (d == 82)
is_magic _ = false

abbrev pub short_header : HubError
short_header = validation "Trace artifact has a short header"

abbrev pub truncated_metadata : HubError
truncated_metadata = validation "Trace artifact has truncated metadata"

module _ (is_json is_utf8 : List ℕ → Bool) where
  -- serde_json's and the standard library's tests of the bytes.
  unfoldable pub metadata_json : List ℕ → Result HubError (List ℕ)
  metadata_json [] = ok empty_object
  metadata_json (b ∷ bs) =
      if not (is_json (b ∷ bs)) || not (is_utf8 (b ∷ bs))
      then err (validation "invalid Trace metadata")
      else ok (b ∷ bs)

  unfoldable pub open_trace : Source → Result HubError (Source × List ℕ)
  unfolding is_magic
  open_trace s = try_result (read_exact s header_len short_header) λ (header, s').
      if not (is_magic (take 4 header))
      then err (validation "Trace artifact has invalid PBTR magic")
      else if not (le_at 4 header 4 == 1)
      then err (validation "unsupported PBTR version")
      else if ltb max_meta_len (le_at 4 header 8)
      then err (validation "Trace metadata exceeds 1 MiB")
      else try_result (read_exact s' (le_at 4 header 8) truncated_metadata)
          λ (metadata, s''). try_result (metadata_json metadata) λ json. ok (s'', json)
