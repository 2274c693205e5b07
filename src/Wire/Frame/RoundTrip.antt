-- ===== src/Wire/Frame/RoundTrip.antt =====
-- Frames written and read.
use pin_bridge.Common.{
  ℕ, ◌+◌, ◌-◌, ◌≤◌, ◌<◌, ◌≡◌, refl, ◌∙◌, ap, inl, inr, List, [], ◌∷◌, ◌++◌, arith, length, take,
  drop, length-append, length-take, leb, le→ltb, le→leb, append_assoc, take_all, take-append-drop,
  ◌≢◌, drop-append, ok, Bool-cases, take-append, take-append_right, u32_mod, All-take,
}
use pin_bridge.Wire.Bytes.{
  le_bytes, from_le_bytes, le_at, AreBytes, from_le_bytes-le_bytes, le_bytes-from_le_bytes,
  length-le_bytes,
}
use pin_bridge.Wire.Frame.{
  max_frame, Writer, write_all, then_write, frame_len, write_frame, read_frame,
}

-- The bytes of a frame with the length field `n`.
abbrev pub frame : ℕ → ℕ → ℕ → List ℕ → List ℕ
frame n op_code status body = le_bytes 4 n ++ (op_code ∷ status ∷ body)

length-frame : (n op st : ℕ) (body : List ℕ) → length (frame n op st body) ≡ length body + 6
length-frame n op st body =
    omega (arith, length-append (le_bytes 4 n) (op ∷ st ∷ body), length-le_bytes 4 n)

read_frame-frame :
    (n op st : ℕ) (body : List ℕ)
    → 2 ≤ n
    → n ≤ max_frame
    → n - 2 ≤ length body
    → read_frame (frame n op st body) ≡ ok ((op, st, take (n - 2) body), drop (n - 2) body)
unfolding read_frame le_at le_bytes
read_frame-frame n op st body lo hi fits = ground (arith, from_le_bytes-le_bytes 4 n (omega arith))

then_write-write_all :
    (w : Writer) (xs ys : List ℕ) → then_write (write_all w xs) ys ≡ write_all w (xs ++ ys)
unfolding then_write
then_write-write_all w xs ys = elim (Bool-cases (leb (length xs) w.room)) [
  | inl fits ↦ ground (
    arith,
    length-append xs ys,
    append_assoc w.sent xs ys,
    append_assoc w.sent xs (take (w.room - length xs) ys),
    take-append_right w.room xs ys,
  )
  | inr short ↦ ground (arith, length-append xs ys, take-append w.room xs ys)
]

-- An accepted frame goes out in one piece.
write_frame-frame :
    (w : Writer) (op st : ℕ) (payload : List ℕ)
    → frame_len payload ≤ max_frame
    → write_frame w op st payload ≡ write_all w (frame (frame_len payload) op st payload)
unfolding write_frame
write_frame-frame w op st payload h =
    rw (le→ltb max_frame (frame_len payload) h, then_write-write_all, then_write-write_all)
      (ap (write_all w) (append_assoc (le_bytes 4 (frame_len payload)) (op ∷ st ∷ []) payload))

write_frame-sent :
    (w : Writer) (op st : ℕ) (payload : List ℕ)
    → frame_len payload ≤ max_frame
    → length payload + 6 ≤ w.room
    → write_frame w op st payload ≡ (
      ok tt,
      record {
        sent = w.sent ++ frame (frame_len payload) op st payload;
        room = w.room - (length payload + 6);
      },
    )
unfolding write_all
write_frame-sent w op st payload small room =
    let size = length-frame (frame_len payload) op st payload in
    write_frame-frame w op st payload small ∙ rw (size, le→leb (length payload + 6) w.room room)

-- The reader takes what the length field says, and leaves the rest.
read_frame-append :
    (n op st : ℕ) (body rest : List ℕ)
    → 2 ≤ n
    → n ≤ max_frame
    → n - 2 ≤ length body
    → read_frame (frame n op st body ++ rest)
      ≡ ok ((op, st, take (n - 2) body), drop (n - 2) body ++ rest)
read_frame-append n op st body rest lo hi fits =
    rw (append_assoc (le_bytes 4 n) (op ∷ st ∷ body) rest) (
      read_frame-frame n op st (body ++ rest) lo hi (omega (arith, length-append body rest))
      ∙ rw (take-append (n - 2) body rest fits, drop-append (n - 2) body rest fits))

-- A payload that fits a frame, on a stream with room for it: `write_frame` succeeds and sends one
-- frame, and `read_frame` on those bytes, whatever follows them, returns the op code, the status
-- and the payload and leaves exactly what follows.
pub read_frame-write_frame :
    (w : Writer) (op st : ℕ) (payload rest : List ℕ)
    → length payload + 2 ≤ max_frame
    → length payload + 6 ≤ w.room
    → (bytes : List ℕ) × (write_frame w op st payload
        ≡ (ok tt, record { sent = w.sent ++ bytes; room = w.room - (length payload + 6) }))
      × (read_frame (bytes ++ rest) ≡ ok ((op, st, payload), rest))
read_frame-write_frame w op st payload rest small room =
    let n = frame_len payload in
    let e : n - 2 ≡ length payload = omega arith in
    let (all, none_left) = take_all (n - 2) payload e in
    (
      frame n op st payload,
      write_frame-sent w op st payload (omega arith) room,
      read_frame-append n op st payload rest (omega arith) (omega arith) (omega arith)
          ∙ rw (all, none_left),
    )

-- A payload of four gigabytes or more whose length wraps into the accepted range is sent as a
-- success, and the reader gets a cut payload: the rest of it is left to be read as the next frame.
pub write_frame_wraps :
    (w : Writer) (op st : ℕ) (payload rest : List ℕ)
    → u32_mod ≤ length payload
    → 2 ≤ frame_len payload
    → frame_len payload ≤ max_frame
    → length payload + 6 ≤ w.room
    → (bytes : List ℕ) × (write_frame w op st payload
        ≡ (ok tt, record { sent = w.sent ++ bytes; room = w.room - (length payload + 6) }))
      × (read_frame (bytes ++ rest)
          ≡ ok (
            (op, st, take (frame_len payload - 2) payload),
            drop (frame_len payload - 2) payload ++ rest,
          ))
      × (take (frame_len payload - 2) payload ≢ payload)
write_frame_wraps w op st payload rest long two small room =
    let n = frame_len payload in
    (
      frame n op st payload,
      write_frame-sent w op st payload small room,
      read_frame-append n op st payload rest two small (omega arith),
      λ e. omega (arith, ap length e, length-take (n - 2) payload),
    )

read_frame_facts :
    (a b c d o s op st : ℕ) (body rest payload : List ℕ)
    → read_frame (a ∷ b ∷ c ∷ d ∷ o ∷ s ∷ body) ≡ ok ((op, st, payload), rest)
    → let n = from_le_bytes (a ∷ b ∷ c ∷ d ∷ []) in
      (2 ≤ n)
      × (n ≤ max_frame)
      × (n - 2 ≤ length body)
      × (o ≡ op)
      × (s ≡ st)
      × (take (n - 2) body ≡ payload)
      × (drop (n - 2) body ≡ rest)
unfolding read_frame le_at
read_frame_facts a b c d o s op st body rest payload h = ground arith

-- What `read_frame` accepts is a frame: on a stream of bytes, a result means that the stream began
-- with that op code, that status and that payload behind their length, within `MAX_FRAME`, and
-- that the rest was left.
pub read_frame_inverse :
    (stream rest payload : List ℕ) (op st : ℕ)
    → AreBytes stream
    → read_frame stream ≡ ok ((op, st, payload), rest)
    → (length payload + 2 ≤ max_frame) × (stream ≡ frame (length payload + 2) op st payload ++ rest)
unfolding read_frame
read_frame_inverse (a ∷ b ∷ c ∷ d ∷ o ∷ s ∷ body) rest payload op st are h =
    let (lo, hi, fits, eo, es, ep, er) = read_frame_facts a b c d o s op st body rest payload h in
    let head = a ∷ b ∷ c ∷ d ∷ [] in
    let size : length payload + 2 ≡ from_le_bytes head =
      omega (arith, ap length ep, length-take (from_le_bytes head - 2) body) in
    let back =
      (le_bytes-from_le_bytes 4 head refl
        (All-take (λ b. b < 256) 4 (a ∷ b ∷ c ∷ d ∷ o ∷ s ∷ body) are)).0 in
    (omega arith, rw (size, back, ← eo, ← es, ← ep, ← er, take-append-drop))
read_frame_inverse stream rest payload op st are h = ground arith
