-- ===== src/Trace/Artifact/Reads.antt =====
-- What `open_trace` makes of the header that the recorder writes.
use pin_bridge.Common.{
  ℕ, ◌≤◌, ◌≡◌, ◌∙◌, refl, ap, List, ◌++◌, Bool, arith, length, length-append, append_assoc,
  take-append_length, drop-append_length, le→leb, le→ltb, ok,
}
use pin_bridge.Wire.Bytes.{le_bytes, le_at}
use pin_bridge.Wire.Record.RoundTrip.{le4}
use pin_bridge.Trace.{HubError}
use pin_bridge.Trace.Artifact.{
  header_len, max_meta_len, magic, header_image, Source, read_exact, is_magic, metadata_json,
  open_trace, short_header, truncated_metadata,
}

pub read_exact-append :
    (s : Source) (xs ys : List ℕ) (refusal : HubError)
    → s.rest ≡ xs ++ ys
    → read_exact s (length xs) refusal ≡ ok (xs, record s { rest = ys })
unfolding read_exact
read_exact-append s xs ys refusal e = rw (
  e,
  le→leb (length xs) (length (xs ++ ys)) (omega (arith, length-append xs ys)),
  take-append_length xs ys (length xs) refl,
  drop-append_length xs ys (length xs) refl,
)

-- The first sixteen bytes of a trace file.
abbrev sixteen : List ℕ → List ℕ
sixteen meta = magic ++ (le_bytes 4 1 ++ (le_bytes 4 (length meta) ++ le_bytes 4 0))

header_image-sixteen : (meta : List ℕ) → header_image meta ≡ sixteen meta ++ meta
unfolding header_image le_bytes
header_image-sixteen meta = refl

length-sixteen : (meta : List ℕ) → header_len ≡ length (sixteen meta)
unfolding le_bytes
length-sixteen meta = refl

-- The header that the recorder writes is accepted, with its metadata, and the records follow.
pub open_trace-header_image :
    (is_json is_utf8 : List ℕ → Bool) (s : Source) (meta body json : List ℕ)
    → s.rest ≡ header_image meta ++ body
    → length meta ≤ max_meta_len
    → metadata_json is_json is_utf8 meta ≡ ok json
    → open_trace is_json is_utf8 s ≡ ok (record s { rest = body }, json)
unfolding open_trace is_magic le_at le_bytes
open_trace-header_image is_json is_utf8 s meta body json e small valid =
    let split : s.rest ≡ sixteen meta ++ (meta ++ body) =
      e
      ∙ ap (λ xs. xs ++ body) (header_image-sixteen meta)
      ∙ append_assoc (sixteen meta) meta body in
    let header = read_exact-append s (sixteen meta) (meta ++ body) short_header split in
    let rest =
      read_exact-append (record s { rest = meta ++ body }) meta body truncated_metadata refl in
    let len = le4 (length meta) (omega arith) in
    let one = le4 1 (omega arith) in
    rw (header, one, len, le→ltb max_meta_len (length meta) small, rest, valid) refl
