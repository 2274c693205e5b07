-- ===== src/Wire/Record.antt =====
-- `EventRecord` of pinbridge-proto/src/lib.rs: the 88-byte wire image of one agent event.
pub mod RoundTrip
use pin_bridge.Common.{ℕ, ◌<◌, ◌^◌, List, ◌++◌, Option, none, some, length, ltb, if◌then◌else◌}
use pin_bridge.Wire.Bytes.{le_bytes, le_at}

pub record EventRecord : Type 0 where
  pub sequence : ℕ
  pub kind : ℕ
  pub thread_id : ℕ
  pub address : ℕ
  pub arg0 : ℕ
  pub arg1 : ℕ
  pub arg2 : ℕ
  pub arg3 : ℕ
  pub arg4 : ℕ
  pub arg5 : ℕ
  pub arg6 : ℕ
  pub arg7 : ℕ

abbrev pub event_wire_len : ℕ
event_wire_len = 88

-- `encode` without the buffer that it appends to.
unfoldable pub image : EventRecord → List ℕ
image r =
    le_bytes 8 r.sequence
    ++ (le_bytes 4 r.kind
        ++ (le_bytes 4 r.thread_id
            ++ (le_bytes 8 r.address
                ++ (le_bytes 8 r.arg0
                    ++ (le_bytes 8 r.arg1
                        ++ (le_bytes 8 r.arg2
                            ++ (le_bytes 8 r.arg3
                                ++ (le_bytes 8 r.arg4
                                    ++ (le_bytes 8 r.arg5
                                        ++ (le_bytes 8 r.arg6 ++ le_bytes 8 r.arg7))))))))))

-- The image, appended to the buffer.
unfoldable pub encode : EventRecord → List ℕ → List ℕ
unfolding image
encode r out = out ++ image r

-- The fields at their offsets.
pub fields_at : List ℕ → EventRecord
fields_at bytes = record {
  sequence = le_at 8 bytes 0;
  kind = le_at 4 bytes 8;
  thread_id = le_at 4 bytes 12;
  address = le_at 8 bytes 16;
  arg0 = le_at 8 bytes 24;
  arg1 = le_at 8 bytes 32;
  arg2 = le_at 8 bytes 40;
  arg3 = le_at 8 bytes 48;
  arg4 = le_at 8 bytes 56;
  arg5 = le_at 8 bytes 64;
  arg6 = le_at 8 bytes 72;
  arg7 = le_at 8 bytes 80;
}

unfoldable pub decode : List ℕ → Option EventRecord
unfolding fields_at
decode bytes = if ltb (length bytes) event_wire_len then none else some (fields_at bytes)

-- Every field fits its Rust type.
pub record InRange (r : EventRecord) : Type 0 where
  pub sequence_lt : r.sequence < 2 ^ 64
  pub kind_lt : r.kind < 2 ^ 32
  pub thread_id_lt : r.thread_id < 2 ^ 32
  pub address_lt : r.address < 2 ^ 64
  pub arg0_lt : r.arg0 < 2 ^ 64
  pub arg1_lt : r.arg1 < 2 ^ 64
  pub arg2_lt : r.arg2 < 2 ^ 64
  pub arg3_lt : r.arg3 < 2 ^ 64
  pub arg4_lt : r.arg4 < 2 ^ 64
  pub arg5_lt : r.arg5 < 2 ^ 64
  pub arg6_lt : r.arg6 < 2 ^ 64
  pub arg7_lt : r.arg7 < 2 ^ 64
