-- ===== src/Wire/HookLog.antt =====
-- `HookLogRecord` of pinbridge-proto/src/lib.rs: the 168-byte record of a function call, with
-- sixteen argument slots.
pub mod RoundTrip
use pin_bridge.Common.{
  ℕ, zero, suc, ◌+◌, ◌*◌, ◌<◌, ◌≡◌, ◌^◌, List, [], ◌∷◌, ◌++◌, Option, none, some, length, ltb,
  if◌then◌else◌, All,
}
use pin_bridge.Wire.Bytes.{le_bytes, le_at}

-- `arguments` is the array `[u64; 16]`.
pub record HookLogRecord : Type 0 where
  pub sequence : ℕ
  pub timestamp_unix_ns : ℕ
  pub kind : ℕ
  pub thread_id : ℕ
  pub address : ℕ
  pub argument_count : ℕ
  pub flags : ℕ
  pub arguments : List ℕ

abbrev pub hook_log_wire_len : ℕ
hook_log_wire_len = 168

-- `for argument in self.arguments { out.extend_from_slice(..) }`
pub arguments_image : List ℕ → List ℕ
arguments_image [] = []
arguments_image (a ∷ vs) = le_bytes 8 a ++ arguments_image vs

unfoldable pub header_image : HookLogRecord → List ℕ
header_image r =
    le_bytes 8 r.sequence
    ++ (le_bytes 8 r.timestamp_unix_ns
        ++ (le_bytes 4 r.kind
            ++ (le_bytes 4 r.thread_id
                ++ (le_bytes 8 r.address ++ (le_bytes 4 r.argument_count ++ le_bytes 4 r.flags)))))

unfoldable pub encode : HookLogRecord → List ℕ → List ℕ
encode r out = out ++ (header_image r ++ arguments_image r.arguments)

-- `for (index, argument) in arguments.iter_mut().enumerate() { *argument = u64_at(40 + index * 8) }`,
-- with the slots that are left and the index.
pub arguments_at : List ℕ → ℕ → ℕ → List ℕ
arguments_at bytes zero index = []
arguments_at bytes (suc left) index =
    le_at 8 bytes (40 + index * 8) ∷ arguments_at bytes left (index + 1)

pub fields_at : List ℕ → HookLogRecord
fields_at bytes = record {
  sequence = le_at 8 bytes 0;
  timestamp_unix_ns = le_at 8 bytes 8;
  kind = le_at 4 bytes 16;
  thread_id = le_at 4 bytes 20;
  address = le_at 8 bytes 24;
  argument_count = le_at 4 bytes 32;
  flags = le_at 4 bytes 36;
  arguments = arguments_at bytes 16 0;
}

unfoldable pub decode : List ℕ → Option HookLogRecord
unfolding fields_at
decode bytes = if ltb (length bytes) hook_log_wire_len then none else some (fields_at bytes)

-- Every field fits its Rust type, and there are sixteen slots.
pub record InRange (r : HookLogRecord) : Type 0 where
  pub sequence_lt : r.sequence < 2 ^ 64
  pub timestamp_unix_ns_lt : r.timestamp_unix_ns < 2 ^ 64
  pub kind_lt : r.kind < 2 ^ 32
  pub thread_id_lt : r.thread_id < 2 ^ 32
  pub address_lt : r.address < 2 ^ 64
  pub argument_count_lt : r.argument_count < 2 ^ 32
  pub flags_lt : r.flags < 2 ^ 32
  pub slots : length r.arguments ≡ 16
  pub arguments_lt : All (λ a. a < 2 ^ 64) r.arguments
