-- ===== src/Trace/Import.antt =====
-- The import of a trace file into the database: `parse_record` and the loop of `build_database`.
pub mod Fill
pub mod Whole
pub mod Rows
use pin_bridge.Common.{
  ℕ, zero, suc, ◌+◌, ◌-◌, ◌^◌, List, [], ◌∷◌, ◌++◌, Bool, true, false, not, ◌||◌, Option, none,
  some, length, drop, get_or, ltb, leb, ◌==◌, if◌then◌else◌, Result, ok, err, try_result,
}
use Prim.Native.String.{String}
use pin_bridge.Wire.Bytes.{le_at}
use pin_bridge.Trace.{HubError, validation, internal, Record}
use pin_bridge.Trace.Artifact.{record_len, Source, read}
use pin_bridge.Trace.Signed.{pos, as_i64}
use pin_bridge.Trace.Store.{EventRow, MemoryRow, Sqlite}

-- `count` little-endian words from `offset` on.
unfoldable pub words_at : ℕ → List ℕ → ℕ → List ℕ
words_at zero bytes offset = []
words_at (suc count) bytes offset = le_at 8 bytes offset ∷ words_at count bytes (offset + 8)

unfoldable pub parse_record : List ℕ → Record
unfolding words_at
parse_record bytes = record {
  sequence = le_at 8 bytes 0;
  kind = le_at 4 bytes 8;
  thread_id = le_at 4 bytes 12;
  address = le_at 8 bytes 16;
  args = words_at 8 bytes 24;
}

-- `while filled < RECORD_LEN`: each round reads a byte or more, so 88 rounds of fuel are enough.
unfoldable pub fill : ℕ → List ℕ → Source → Result HubError (List ℕ × Source)
unfolding read
fill zero filled s = ok (filled, s)
fill (suc fuel) filled s = elim (ltb (length filled) record_len) [
  | false ↦ ok (filled, s)
  | true ↦
      try_result (read s (record_len - length filled))
        λ (got, s'). elim got [ [] ↦ ok (filled, s') | b ∷ bs ↦ fill fuel (filled ++ b ∷ bs) s' ]
]

-- The columns of `INSERT INTO events`.
unfoldable pub event_row : List ℕ → EventRow
unfolding parse_record
event_row bytes =
    let r = parse_record bytes in
    record {
      sequence = pos r.sequence;
      kind = pos r.kind;
      thread_id = pos r.thread_id;
      address = as_i64 r.address;
      payload = drop 24 bytes;
    }

unfoldable pub memory_row : Record → MemoryRow
memory_row r = record { sequence = pos r.sequence; memory_address = as_i64 (get_or r.args 0 0) }

-- `matches!(record.kind, 2 | 10)`.
unfoldable pub is_memory : ℕ → Bool
is_memory kind = (kind == 2) || (kind == 10)

-- A statement of the database with its error mapped.
unfoldable pub executed {ℓ} : {A : Type ℓ} → String → Option A → Result HubError A
executed what none = err (internal what)
executed what (some a) = ok a

-- What the loop has built: the database, `physical_records` (a file has fewer than 2^64 of them)
-- and `truncated_tail`.
pub record Imported (Database : Type 0) : Type 0 where
  pub database : Database
  pub physical_records : ℕ
  pub truncated_tail : ℕ

module _ (q : Sqlite) where
  unfoldable pub insert_memory_row : Bool → Record → q.Database → Result HubError q.Database
  unfolding memory_row executed
  insert_memory_row false r d = ok d
  insert_memory_row true r d =
      executed "import Trace memory index" (q.insert_memory d (memory_row r))

  -- The body of the loop on the 88 bytes of one record.
  unfoldable pub import_record : q.Database → List ℕ → Result HubError q.Database
  unfolding executed
  import_record d bytes =
      let r = parse_record bytes in
      if leb (2 ^ 63) r.sequence
      then err (validation "Trace sequence exceeds the local database range")
      else try_result (executed "import Trace event" (q.insert_event d (event_row bytes)))
          (insert_memory_row (is_memory r.kind) r)

  -- The loop: a record takes 88 bytes, so more fuel than the file has bytes is enough.
  unfoldable pub import_loop : ℕ → q.Database → ℕ → Source → Result HubError (Imported q.Database)
  import_loop zero d count s =
      ok (record { database = d; physical_records = count; truncated_tail = 0 })
  import_loop (suc fuel) d count s = try_result (fill record_len [] s) λ (filled, s').
      if length filled == 0
      then ok (record { database = d; physical_records = count; truncated_tail = 0 })
      else if not (length filled == record_len)
      then ok (record { database = d; physical_records = count; truncated_tail = length filled })
      else try_result (import_record d filled) λ d'. import_loop fuel d' (suc count) s'

  -- The database of an opened file, up to the end of the loop: the commit, the indexes and the rows of
  -- `trace_meta` that follow are not modelled.
  unfoldable pub build_database : Source → Result HubError (Imported q.Database)
  unfolding executed
  build_database s =
      try_result (executed "initialize Trace database" q.created)
        λ d. import_loop (suc (length s.rest)) d 0 s
