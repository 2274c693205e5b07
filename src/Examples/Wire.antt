-- ===== src/Examples/Wire.antt =====
-- The wire theorems at concrete records, frames and payloads.
use pin_bridge.Common.{
  ℕ, ◌+◌, ◌-◌, ◌^◌, ◌≤◌, ◌≡◌, ◌≢◌, refl, List, [], ◌∷◌, ◌++◌, some, arith, length, take, drop,
  replicate, length-replicate, ok,
}
use pin_bridge.Wire.Bytes.{le_at, from_le_bytes}
use pin_bridge.Wire.Record.{EventRecord, event_wire_len}
use pin_bridge.Wire.Record
use pin_bridge.Wire.Record.RoundTrip.{decode-encode_record}
use pin_bridge.Wire.HookLog.{HookLogRecord, hook_log_wire_len}
use pin_bridge.Wire.HookLog
use pin_bridge.Wire.HookLog.RoundTrip.{decode-encode_hook_log}
use pin_bridge.Wire.Frame.{max_frame, Writer, frame_len, write_frame, read_frame}
use pin_bridge.Wire.Frame.RoundTrip.{
  frame, read_frame-write_frame, write_frame_wraps, read_frame_inverse,
}
use pin_bridge.Wire.Reader.{Reader}
use pin_bridge.Wire.Reader.Fields.{Field, word, long}

abbrev sample : EventRecord
sample = record {
  sequence = 42;
  kind = 2;
  thread_id = 7;
  address = 0x7ff6_1234_5678;
  arg0 = 1;
  arg1 = 2;
  arg2 = 3;
  arg3 = 4;
  arg4 = 5;
  arg5 = 6;
  arg6 = 7;
  arg7 = 2 ^ 64 - 1;
}

decode-encode_record_example :
    (Record.decode (Record.encode sample [] ++ 9 ∷ []) ≡ some sample)
    × (length (Record.encode sample []) ≡ event_wire_len)
decode-encode_record_example = decode-encode_record sample (9 ∷ []) (omega arith)

abbrev buffer : List ℕ
buffer =
    5 ∷ 42 ∷ 79 ∷ 116 ∷ 153 ∷ 190 ∷ 227 ∷ 8 ∷ 45 ∷ 82 ∷ 119 ∷ 156 ∷ 193 ∷ 230 ∷ 11 ∷ 48 ∷ 85 ∷ 122
    ∷ 159 ∷ 196 ∷ 233 ∷ 14 ∷ 51 ∷ 88 ∷ 125 ∷ 162 ∷ 199 ∷ 236 ∷ 17 ∷ 54 ∷ 91 ∷ 128 ∷ 165 ∷ 202 ∷ 239
    ∷ 20 ∷ 57 ∷ 94 ∷ 131 ∷ 168 ∷ 205 ∷ 242 ∷ 23 ∷ 60 ∷ 97 ∷ 134 ∷ 171 ∷ 208 ∷ 245 ∷ 26 ∷ 63 ∷ 100
    ∷ 137 ∷ 174 ∷ 211 ∷ 248 ∷ 29 ∷ 66 ∷ 103 ∷ 140 ∷ 177 ∷ 214 ∷ 251 ∷ 32 ∷ 69 ∷ 106 ∷ 143 ∷ 180
    ∷ 217 ∷ 254 ∷ 35 ∷ 72 ∷ 109 ∷ 146 ∷ 183 ∷ 220 ∷ 1 ∷ 38 ∷ 75 ∷ 112 ∷ 149 ∷ 186 ∷ 223 ∷ 4 ∷ 41
    ∷ 78 ∷ 115 ∷ 152 ∷ 189 ∷ 226 ∷ []

-- The record of the repository's own test.
abbrev hook_sample : HookLogRecord
hook_sample = record {
  sequence = 42;
  timestamp_unix_ns = 1_777_777_777_123_456_700;
  kind = 14;
  thread_id = 7;
  address = 0x7ff6_1234_5678;
  argument_count = 16;
  flags = 1;
  arguments =
      4096 ∷ 4097 ∷ 4098 ∷ 4099 ∷ 4100 ∷ 4101 ∷ 4102 ∷ 4103 ∷ 4104 ∷ 4105 ∷ 4106 ∷ 4107 ∷ 4108
      ∷ 4109 ∷ 4110 ∷ 4111 ∷ [];
}

decode-encode_hook_log_example :
    (HookLog.decode (HookLog.encode hook_sample [] ++ []) ≡ some hook_sample)
    × (length (HookLog.encode hook_sample []) ≡ hook_log_wire_len)
decode-encode_hook_log_example = decode-encode_hook_log hook_sample [] (omega arith)

abbrev socket : Writer
socket = record { sent = 1 ∷ []; room = 2 ^ 40 }

read_frame-write_frame_example :
    (bytes : List ℕ) × (write_frame socket 3 0 (8 ∷ 9 ∷ [])
      ≡ (ok tt, record { sent = 1 ∷ bytes; room = 2 ^ 40 - 8 }))
    × (read_frame (bytes ++ 5 ∷ []) ≡ ok ((3, 0, 8 ∷ 9 ∷ []), 5 ∷ []))
read_frame-write_frame_example =
    read_frame-write_frame socket 3 0 (8 ∷ 9 ∷ []) (5 ∷ []) (omega arith) (omega arith)

-- Four gigabytes: the length field says 2, so the reader sees no payload at all.
huge : List ℕ
huge = replicate (2 ^ 32) 0

length-huge : length huge ≡ 2 ^ 32
unfolding huge
length-huge = length-replicate (2 ^ 32) 0

write_frame_wraps_example :
    (bytes : List ℕ) × (write_frame socket 3 0 huge
      ≡ (ok tt, record { sent = 1 ∷ bytes; room = 2 ^ 40 - (length huge + 6) }))
    × (read_frame (bytes ++ [])
        ≡ ok ((3, 0, take (frame_len huge - 2) huge), drop (frame_len huge - 2) huge ++ []))
    × (take (frame_len huge - 2) huge ≢ huge)
write_frame_wraps_example =
    write_frame_wraps socket 3 0 huge [] (omega (arith, length-huge)) (omega (arith, length-huge))
      (omega (arith, length-huge)) (omega (arith, length-huge))

read_frame_inverse_example :
    (4 ≤ max_frame)
    × ((4 ∷ 0 ∷ 0 ∷ 0 ∷ 3 ∷ 0 ∷ 8 ∷ 9 ∷ 5 ∷ []) ≡ frame 4 3 0 (8 ∷ 9 ∷ []) ++ 5 ∷ [])
unfolding read_frame le_at from_le_bytes
read_frame_inverse_example =
    read_frame_inverse (4 ∷ 0 ∷ 0 ∷ 0 ∷ 3 ∷ 0 ∷ 8 ∷ 9 ∷ 5 ∷ []) (5 ∷ []) (8 ∷ 9 ∷ []) 3 0
      (omega arith) refl

abbrev cursor : Reader
cursor = record { bytes = 1 ∷ 2 ∷ 3 ∷ []; pos = 1 }

abbrev payload_fields : List Field
payload_fields = word 5 ∷ long (2 ^ 40) ∷ word 6 ∷ []
