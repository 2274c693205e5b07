-- ===== src/Event.antt =====
-- bindings/rust/pinbridge-agent/src/event.rs: the record that analysis callbacks write, and
-- `to_record` of record.rs, its copy on the wire.
use pin_bridge.Common.{ℕ}
use pin_bridge.Wire.Record.{EventRecord}

pub record Event : Type 0 where
  pub sequence : ℕ
  pub kind : ℕ
  pub thread_id : ℕ
  pub address : ℕ
  pub arg0 : ℕ
  pub arg1 : ℕ
  pub arg2 : ℕ
  pub arg3 : ℕ
  pub arg4 : ℕ
  pub arg5 : ℕ
  pub arg6 : ℕ
  pub arg7 : ℕ

-- `Event::EMPTY`.
abbrev pub empty : Event
empty = record {
  sequence = 0;
  kind = 0;
  thread_id = 0;
  address = 0;
  arg0 = 0;
  arg1 = 0;
  arg2 = 0;
  arg3 = 0;
  arg4 = 0;
  arg5 = 0;
  arg6 = 0;
  arg7 = 0;
}

abbrev pub event_marker : ℕ
event_marker = 11

abbrev pub event_repeat : ℕ
event_repeat = 12

-- The kinds that `ring.rs` counts.
abbrev pub event_kind_count : ℕ
event_kind_count = 9

unfoldable pub to_record : Event → EventRecord
to_record e = record {
  sequence = e.sequence;
  kind = e.kind;
  thread_id = e.thread_id;
  address = e.address;
  arg0 = e.arg0;
  arg1 = e.arg1;
  arg2 = e.arg2;
  arg3 = e.arg3;
  arg4 = e.arg4;
  arg5 = e.arg5;
  arg6 = e.arg6;
  arg7 = e.arg7;
}
