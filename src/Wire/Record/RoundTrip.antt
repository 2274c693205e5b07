-- ===== src/Wire/Record/RoundTrip.antt =====
-- Encoding and decoding an `EventRecord`.
use pin_bridge.Common.{
  ℕ, ◌+◌, ◌^◌, ◌≤◌, ◌<◌, ◌≡◌, refl, List, [], ◌++◌, none, some, arith, length, take, drop,
  length-append, length-drop, length-take, slice-append, All-take, All-drop, ltb, ltb→lt, le→ltb,
  Bool-cases, ◌⊎◌, inl, inr,
}
use pin_bridge.Wire.Bytes.{
  le_bytes, from_le_bytes, le_at, AreBytes, from_le_bytes-le_bytes, le_bytes-from_le_bytes,
}
use pin_bridge.Wire.Record.{EventRecord, event_wire_len, image, encode, fields_at, decode, InRange}

pub le8 : (v : ℕ) → v < 2 ^ 64 → from_le_bytes (le_bytes 8 v) ≡ v
le8 v h = from_le_bytes-le_bytes 8 v h

pub le4 : (v : ℕ) → v < 2 ^ 32 → from_le_bytes (le_bytes 4 v) ≡ v
le4 v h = from_le_bytes-le_bytes 4 v h

fields_at-image : (r : EventRecord) (rest : List ℕ) → InRange r → fields_at (image r ++ rest) ≡ r
unfolding fields_at image le_at le_bytes
fields_at-image r rest h = λ i. record {
  sequence = le8 r.sequence h.sequence_lt i;
  kind = le4 r.kind h.kind_lt i;
  thread_id = le4 r.thread_id h.thread_id_lt i;
  address = le8 r.address h.address_lt i;
  arg0 = le8 r.arg0 h.arg0_lt i;
  arg1 = le8 r.arg1 h.arg1_lt i;
  arg2 = le8 r.arg2 h.arg2_lt i;
  arg3 = le8 r.arg3 h.arg3_lt i;
  arg4 = le8 r.arg4 h.arg4_lt i;
  arg5 = le8 r.arg5 h.arg5_lt i;
  arg6 = le8 r.arg6 h.arg6_lt i;
  arg7 = le8 r.arg7 h.arg7_lt i;
}

pub length-image : (r : EventRecord) → length (image r) ≡ event_wire_len
unfolding image le_bytes
length-image r = refl

-- A record whose fields fit their types is read back from the front of what `encode` appends,
-- whatever follows; the image has 88 bytes.
pub decode-encode_record :
    (r : EventRecord) (rest : List ℕ)
    → InRange r
    → (decode (encode r [] ++ rest) ≡ some r) × (length (encode r []) ≡ event_wire_len)
unfolding encode decode
decode-encode_record r rest h =
    let long : event_wire_len ≤ length (image r ++ rest) =
      omega (arith, length-image r, length-append (image r) rest) in
    (rw (le→ltb (length (image r ++ rest)) 88 long, fields_at-image r rest h), length-image r)

-- One field of the image, read back from the buffer, and the rest of the image after it.
module _ (bytes : List ℕ) (are : AreBytes bytes) (long : 88 ≤ length bytes) where
  field_le : (w i : ℕ) → i + w ≤ 88 → le_bytes w (le_at w bytes i) ≡ take w (drop i bytes)
  unfolding le_at
  field_le w i h =
      (le_bytes-from_le_bytes w (take w (drop i bytes))
        (omega (arith, length-take w (drop i bytes), length-drop i bytes))
        (All-take (λ b. b < 256) w (drop i bytes) (All-drop (λ b. b < 256) i bytes are))).0

  glue :
      (w v i : ℕ) (xs : List ℕ)
      → i + w ≤ 88
      → xs ≡ take v (drop (i + w) bytes)
      → le_bytes w (le_at w bytes i) ++ xs ≡ take (w + v) (drop i bytes)
  glue w v i xs h e = rw (field_le w i h, e) (slice-append bytes w v i (i + w) (w + v) refl refl)

  image-fields_at : image (fields_at bytes) ≡ take 88 bytes
  unfolding image fields_at
  image-fields_at = glue 8 80 0 _ (omega arith) (
      glue 4 76 8 _ (omega arith) (
        glue 4 72 12 _ (omega arith) (
          glue 8 64 16 _ (omega arith) (
            glue 8 56 24 _ (omega arith) (
              glue 8 48 32 _ (omega arith) (
                glue 8 40 40 _ (omega arith) (
                  glue 8 32 48 _ (omega arith) (
                    glue 8 24 56 _ (omega arith) (
                      glue 8 16 64 _ (omega arith)
                        (glue 8 8 72 _ (omega arith) (field_le 8 80 (omega arith))))))))))))

-- `decode` refuses a buffer exactly when it is shorter than a record, and what it reads is encoded
-- back to the first 88 bytes of the buffer.
pub encode-decode_record :
    (bytes : List ℕ)
    → AreBytes bytes
    → ((length bytes < event_wire_len) × (decode bytes ≡ none))
      ⊎ ((r : EventRecord) × (event_wire_len ≤ length bytes)
          × (decode bytes ≡ some r)
          × (encode r [] ≡ take event_wire_len bytes))
unfolding encode decode
encode-decode_record bytes are = elim (Bool-cases (ltb (length bytes) 88)) [
  | inl short ↦ inl (ltb→lt _ _ short, rw short)
  | inr long ↦
      let enough : 88 ≤ length bytes = ground arith in
      inr (fields_at bytes, enough, rw long, image-fields_at bytes are enough)
]
