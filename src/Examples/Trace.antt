-- ===== src/Examples/Trace.antt =====
-- A database of two lists, a recorded session in it, and the theorems on trace files at them.
use pin_bridge.Common.{
  ℕ, suc, ◌+◌, ◌^◌, ◌≡◌, refl, List, [], ◌∷◌, ◌++◌, map, reverse, Bool, true, false, ◌&&◌, ◌||◌,
  Option, none, some, inl, inr, Bool-cases, arith, All, keep, length, take, ltb, if◌then◌else◌, ok,
  concat, try_result, replicate, length-replicate, All-imp,
}
use pin_bridge.Wire.Record.{EventRecord, InRange, decode}
use pin_bridge.Event.{Event, empty, to_record}
use pin_bridge.Ring.Holds.{number}
use pin_bridge.Recorder.Tape.{
  session_tape, consume_all, consume, finish, flush_run, extend_run, marker, same_payload,
  repeat_record,
}
use pin_bridge.Trace.Artifact.{record_len, Source, metadata_json, open_trace}
use pin_bridge.Trace.Signed.{ℤ, pos, equals}
use pin_bridge.Trace.Store.{
  Tables, no_rows, Sqlite, Serves, Unused, event_key, memory_key, insert_row, selected,
}
use pin_bridge.Trace.Import.{parse_record, build_database, is_memory, event_row, executed}
use pin_bridge.Trace.Import.Fill.{Steady, at}
use pin_bridge.Trace.Query.{memory, browse, query}
use pin_bridge.Trace.Query.Matching.{wanted, InWidth, IsRecord}
use pin_bridge.Trace.Import.Whole.{IsWhole, insert_all, build_database-insert_all}
use pin_bridge.Trace.Import.Rows.{memory_rows}
use pin_bridge.Trace.Query.Pages.{page_at, query-page}
use pin_bridge.Trace.Session.{
  record_bytes-All, session_tape-Rising, trace_file, shown, from_wire, session-browsed,
  parse_record-decode, map_option, record_bytes, Sent,
}

-- Whether a key is in a table.
abbrev is_used : {A : Type 0} → (A → ℤ) → ℤ → List A → Bool
is_used primary key [] = false
is_used primary key (r ∷ rs) = equals (primary r) key || is_used primary key rs

Unused-is_used :
    {A : Type 0} (primary : A → ℤ) (key : ℤ) (rows : List A)
    → Unused primary key rows
    → is_used primary key rows ≡ false
Unused-is_used primary key [] h = refl
Unused-is_used primary key (r ∷ rs) h = rw (h.0) (Unused-is_used primary key rs (h.1))

abbrev lists : Sqlite
lists = record {
  Database = Tables;
  created = some no_rows;
  insert_event = λ t row.
      if is_used event_key row.sequence t.events
      then none
      else some (record t { events = insert_row event_key row t.events });
  insert_memory = λ t row.
      if is_used memory_key row.sequence t.memory
      then none
      else some (record t { memory = insert_row memory_key row t.memory });
  count = λ t s. some (pos (length (selected t s)));
  select = λ t s limit. some (take limit (reverse (selected t s)));
}

lists-Serves : Serves lists
lists-Serves = record {
  tables = λ t. t;
  fresh = (no_rows, refl, refl);
  event_inserted = λ t row free. (
    record t { events = insert_row event_key row t.events },
    rw (Unused-is_used event_key row.sequence t.events free) refl,
    refl,
  );
  memory_inserted = λ t row free. (
    record t { memory = insert_row memory_key row t.memory },
    rw (Unused-is_used memory_key row.sequence t.memory free) refl,
    refl,
  );
  counted = λ t s. refl;
  listed = λ t s limit. refl;
}

-- Whether every field fits its type.
abbrev fits : EventRecord → Bool
fits r =
    (ltb r.sequence (2 ^ 64)
      && (ltb r.kind (2 ^ 32) && (ltb r.thread_id (2 ^ 32) && ltb r.address (2 ^ 64))))
    && ((ltb r.arg0 (2 ^ 64)
          && (ltb r.arg1 (2 ^ 64) && (ltb r.arg2 (2 ^ 64) && ltb r.arg3 (2 ^ 64))))
        && (ltb r.arg4 (2 ^ 64)
            && (ltb r.arg5 (2 ^ 64) && (ltb r.arg6 (2 ^ 64) && ltb r.arg7 (2 ^ 64)))))

fits-InRange : (r : EventRecord) → fits r ≡ true → InRange r
fits-InRange r h = record {
  sequence_lt = ground arith;
  kind_lt = ground arith;
  thread_id_lt = ground arith;
  address_lt = ground arith;
  arg0_lt = ground arith;
  arg1_lt = ground arith;
  arg2_lt = ground arith;
  arg3_lt = ground arith;
  arg4_lt = ground arith;
  arg5_lt = ground arith;
  arg6_lt = ground arith;
  arg7_lt = ground arith;
}

-- Two accesses to one address, with one instruction between them.
abbrev accesses : List Event
accesses =
    record empty { kind = 10; thread_id = 7; arg0 = 2 ^ 63 + 5; arg1 = 4 }
    ∷ record empty { kind = 9; thread_id = 7; address = 5 }
    ∷ record empty { kind = 2; thread_id = 8; arg0 = 2 ^ 63 + 5; arg1 = 4 }
    ∷ []

abbrev all_json : List ℕ → Bool
all_json bytes = true

-- One byte, two bytes, three bytes at a time.
abbrev growing : ℕ → Option ℕ
growing k = some k

growing-Steady : Steady growing
growing-Steady k = (k, refl)

abbrev tape : List Event
tape = session_tape 4 (length accesses) (length accesses) (number 0 accesses)

abbrev all_fit : List Event → Bool
all_fit [] = true
all_fit (e ∷ es) = fits (to_record e) && all_fit es

all_fit-Sent : (es : List Event) → all_fit es ≡ true → All Sent es
all_fit-Sent [] h = tt
all_fit-Sent (e ∷ es) h = elim (Bool-cases (fits (to_record e))) [
  | inl t ↦ (fits-InRange (to_record e) t, all_fit-Sent es (ground arith))
  | inr n ↦ absurd (ground arith)
]

tape-Sent : All Sent tape
unfolding session_tape consume_all consume finish flush_run extend_run marker same_payload
    repeat_record to_record
tape-Sent = all_fit-Sent tape refl

width : InWidth (memory (2 ^ 63 + 5))
unfolding InWidth
width = omega arith

session-browsed_example :
    (s : Source) × (d : Tables) × (open_trace all_json all_json
        (at (trace_file [] tape ++ (1 ∷ 2 ∷ [])) 0 growing)
      ≡ ok (s, 123 ∷ 125 ∷ []))
    × (build_database lists s
        ≡ ok (record { database = d; physical_records = length tape; truncated_tail = 2 }))
    × (browse lists d (memory (2 ^ 63 + 5)) 1 (suc (length tape)) 0
        ≡ ok (keep (wanted (memory (2 ^ 63 + 5))) (shown tape)))
unfolding metadata_json
session-browsed_example =
    session-browsed all_json all_json lists lists-Serves growing growing-Steady 4 accesses []
      (123 ∷ 125 ∷ []) (1 ∷ 2 ∷ []) (memory (2 ^ 63 + 5)) 1 (omega arith) tape-Sent (omega arith)
      refl (omega arith) width (omega arith) (omega arith)

-- The two accesses are what is shown.
two_shown : length (keep (wanted (memory (2 ^ 63 + 5))) (shown tape)) ≡ 2
unfolding session_tape consume_all consume finish flush_run extend_run marker same_payload
    repeat_record to_record wanted from_wire is_memory
two_shown = refl

parse_record-decode_example :
    map_option from_wire (decode (replicate record_len 1))
    ≡ some (parse_record (replicate record_len 1))
parse_record-decode_example =
    parse_record-decode (replicate record_len 1) (length-replicate record_len 1)

abbrev records : List (List ℕ)
records = map record_bytes tape

build_database-insert_all_example :
    build_database lists (at (concat records ++ 1 ∷ []) 0 growing)
    ≡ try_result
        (executed "initialize Trace database" (some no_rows))
        λ d. insert_all lists d 0 records (1 ∷ [])
build_database-insert_all_example =
    build_database-insert_all lists growing growing-Steady records (1 ∷ []) 0
      (All-imp IsRecord IsWhole records (λ c h. h.0) (record_bytes-All tape)) (omega arith)

abbrev imported : Tables
imported = record { events = map event_row records; memory = memory_rows records }

query-page_example :
    query lists imported (memory (2 ^ 63 + 5)) 0 1
    ≡ ok (
        page_at
          (length (keep (λ c. wanted (memory (2 ^ 63 + 5)) (parse_record c)) records))
          1
          (keep (λ c. wanted (memory (2 ^ 63 + 5)) (parse_record c)) records))
unfolding lists-Serves
query-page_example =
    query-page lists lists-Serves imported records (record_bytes-All tape)
      (session_tape-Rising 4 accesses (omega arith) tape-Sent) refl (memory (2 ^ 63 + 5)) width 1
      (omega arith) (omega arith) 0
      (keep (λ c. wanted (memory (2 ^ 63 + 5)) (parse_record c)) records) (inl (refl, refl))
