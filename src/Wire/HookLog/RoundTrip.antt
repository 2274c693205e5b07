-- ===== src/Wire/HookLog/RoundTrip.antt =====
-- Encoding and decoding a `HookLogRecord`.
use pin_bridge.Common.{
  ℕ, ◌+◌, ◌*◌, ◌^◌, ◌≤◌, ◌<◌, ◌≡◌, refl, sym, ◌∙◌, ap, ap₂, List, [], ◌∷◌, ◌++◌, some, arith,
  length, length-append, le→ltb, append_assoc, All, drop-append_length, take-append_length,
}
use pin_bridge.Wire.Bytes.{le_bytes, le_at, length-le_bytes}
use pin_bridge.Wire.Record.RoundTrip.{le8, le4}
use pin_bridge.Wire.HookLog.{
  HookLogRecord, hook_log_wire_len, arguments_image, header_image, encode, arguments_at, fields_at,
  decode, InRange,
}

length-arguments_image : (vs : List ℕ) → length (arguments_image vs) ≡ length vs * 8
unfolding arguments_image
length-arguments_image [] = refl
length-arguments_image (a ∷ vs) = omega (
  arith,
  length-append (le_bytes 8 a) (arguments_image vs),
  length-le_bytes 8 a,
  length-arguments_image vs,
)

-- The value that starts where a prefix ends.
le_at-append :
    (pre rest : List ℕ) (v i : ℕ)
    → i ≡ length pre
    → v < 2 ^ 64
    → le_at 8 (pre ++ (le_bytes 8 v ++ rest)) i ≡ v
unfolding le_at
le_at-append pre rest v i e h =
    rw
      (
        drop-append_length pre (le_bytes 8 v ++ rest) i e,
        take-append_length (le_bytes 8 v) rest 8 (sym (length-le_bytes 8 v)),
      )
      (le8 v h)

arguments_at-image :
    (vs pre rest bytes : List ℕ) (index : ℕ)
    → bytes ≡ pre ++ (arguments_image vs ++ rest)
    → length pre ≡ 40 + index * 8
    → All (λ a. a < 2 ^ 64) vs
    → arguments_at bytes (length vs) index ≡ vs
unfolding arguments_at arguments_image
arguments_at-image [] pre rest bytes index b e h = refl
arguments_at-image (a ∷ vs) pre rest bytes index b e h =
    let pre' = pre ++ le_bytes 8 a in
    let long : length pre' ≡ 40 + (index + 1) * 8 =
      omega (arith, length-append pre (le_bytes 8 a), length-le_bytes 8 a) in
    let first : bytes ≡ pre ++ (le_bytes 8 a ++ (arguments_image vs ++ rest)) =
      b ∙ ap (◌++◌ pre) (append_assoc (le_bytes 8 a) (arguments_image vs) rest) in
    let shift : bytes ≡ pre' ++ (arguments_image vs ++ rest) =
      first ∙ sym (append_assoc pre (le_bytes 8 a) (arguments_image vs ++ rest)) in
    ap₂ ◌∷◌
      (rw first (le_at-append pre (arguments_image vs ++ rest) a (40 + index * 8) (sym e) h.0))
      (arguments_at-image vs pre' rest bytes (index + 1) shift long h.1)

length-header_image : (r : HookLogRecord) → length (header_image r) ≡ 40
unfolding header_image le_bytes
length-header_image r = refl

fields_at-image :
    (r : HookLogRecord) (rest : List ℕ)
    → InRange r
    → fields_at (header_image r ++ (arguments_image r.arguments ++ rest)) ≡ r
unfolding fields_at header_image le_at le_bytes
fields_at-image r rest h = λ i. record {
  sequence = le8 r.sequence h.sequence_lt i;
  timestamp_unix_ns = le8 r.timestamp_unix_ns h.timestamp_unix_ns_lt i;
  kind = le4 r.kind h.kind_lt i;
  thread_id = le4 r.thread_id h.thread_id_lt i;
  address = le8 r.address h.address_lt i;
  argument_count = le4 r.argument_count h.argument_count_lt i;
  flags = le4 r.flags h.flags_lt i;
  arguments = slots i;
}
  where
    slots :
        arguments_at (header_image r ++ (arguments_image r.arguments ++ rest)) 16 0 ≡ r.arguments
    slots = rw (← h.slots) (
        arguments_at-image r.arguments (header_image r) rest _ 0 refl (length-header_image r)
          h.arguments_lt)

fields_at-append :
    (r : HookLogRecord) (rest : List ℕ)
    → InRange r
    → fields_at ((header_image r ++ arguments_image r.arguments) ++ rest) ≡ r
fields_at-append r rest h = rw append_assoc (fields_at-image r rest h)

-- A record whose fields fit their types, with its sixteen slots, is read back from the front of
-- what `encode` appends, whatever follows; the image has 168 bytes.
pub decode-encode_hook_log :
    (r : HookLogRecord) (rest : List ℕ)
    → InRange r
    → (decode (encode r [] ++ rest) ≡ some r) × (length (encode r []) ≡ hook_log_wire_len)
unfolding encode decode
decode-encode_hook_log r rest h =
    let size : length (header_image r ++ arguments_image r.arguments) ≡ 168 = omega (
      arith,
      length-append (header_image r) (arguments_image r.arguments),
      length-header_image r,
      length-arguments_image r.arguments,
      h.slots,
    ) in
    let long : 168 ≤ length ((header_image r ++ arguments_image r.arguments) ++ rest) =
      omega (arith, size, length-append (header_image r ++ arguments_image r.arguments) rest) in
    (rw (le→ltb _ 168 long) (ap some (fields_at-append r rest h)), size)
