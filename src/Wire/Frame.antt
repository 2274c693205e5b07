-- ===== src/Wire/Frame.antt =====
-- `write_frame` and `read_frame` of pinbridge-proto/src/lib.rs.
pub mod RoundTrip
use pin_bridge.Common.{
  ℕ, ◌+◌, ◌-◌, ◌%◌, List, [], ◌∷◌, ◌++◌, ◌≤◌, Bool, true, false, ◌||◌, length, take, drop, get_or,
  ltb, leb, if◌then◌else◌, Result, ok, err, try_result, u32_mod, ◌^◌,
}
use pin_bridge.Wire.Bytes.{le_bytes, le_at}

pub data IoError : Type 0 where
  invalid_input invalid_data unexpected_eof broken_pipe : IoError

abbrev pub max_frame : ℕ
max_frame = 2 ^ 20

abbrev pub header_len : ℕ
header_len = 6

-- A stream under `impl Write`: what it has taken, and how many bytes it takes before it breaks.
pub record Writer : Type 0 where
  pub sent : List ℕ
  pub room : ℕ

-- `Write::write_all`: a broken stream keeps the part that it took.
unfoldable pub write_all : Writer → List ℕ → Result IoError (Unit {0}) × Writer
write_all w bytes =
    if leb (length bytes) w.room
    then (ok tt, record w { sent = w.sent ++ bytes; room = w.room - length bytes })
    else (err broken_pipe, record w { sent = w.sent ++ take w.room bytes; room = 0 })

-- `stream.write_all(..)?` after another step.
unfoldable pub then_write :
    Result IoError (Unit {0}) × Writer → List ℕ → Result IoError (Unit {0}) × Writer
unfolding write_all
then_write (ok _, w) bytes = write_all w bytes
then_write (err e, w) bytes = (err e, w)

-- `(payload.len() + 2) as u32`: the cast keeps the low 32 bits.
abbrev pub frame_len : List ℕ → ℕ
frame_len payload = (length payload + 2) % u32_mod

-- The closing `flush` has nothing to do on a stream that takes bytes at once.
unfoldable pub write_frame : Writer → ℕ → ℕ → List ℕ → Result IoError (Unit {0}) × Writer
unfolding then_write
write_frame w op_code status payload =
    if ltb max_frame (frame_len payload)
    then (err invalid_input, w)
    else then_write
        (then_write (write_all w (le_bytes 4 (frame_len payload))) (op_code ∷ status ∷ [])) payload

-- `Read::read_exact`: the bytes read and those left, or the error of a stream that ends early.
unfoldable pub read_exact : List ℕ → ℕ → Result IoError (List ℕ × List ℕ)
read_exact stream n =
    if leb n (length stream) then ok (take n stream, drop n stream) else err unexpected_eof

-- Op code, status and payload, and what the stream has left.
unfoldable pub read_frame : List ℕ → Result IoError ((ℕ × ℕ × List ℕ) × List ℕ)
unfolding read_exact
read_frame stream = try_result (read_exact stream header_len) λ (header, rest).
    let len = le_at 4 header 0 in
    if ltb len 2 || ltb max_frame len
    then err invalid_data
    else try_result (read_exact rest (len - 2))
        λ (payload, rest'). ok ((get_or header 4 0, get_or header 5 0, payload), rest')
