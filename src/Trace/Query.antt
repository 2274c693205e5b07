-- ===== src/Trace/Query.antt =====
-- The queries of trace_query.rs: predicates, one page of a query, and what the caller is told.
pub mod Matching
pub mod Pages
use pin_bridge.Common.{
  ℕ, zero, suc, ◌+◌, ◌-◌, ◌*◌, ◌^◌, List, [], ◌∷◌, ◌++◌, reverse, Bool, true, false, not, ◌&&◌,
  ◌||◌, Option, none, some, length, ltb, leb, ◌==◌, if◌then◌else◌, Result, ok, err, try_result,
  u32_mod,
}
use pin_bridge.Trace.{HubError, validation, internal, Record}
use pin_bridge.Trace.Signed.{ℤ, pos, negsuc, as_i64, as_u64}
use pin_bridge.Trace.Store.{
  EventRow, Clause, kind_is, address_is, thread_is, sequence_is, memory_is, Selection, Sqlite,
}
use pin_bridge.Trace.Import.{words_at, executed}

pub data Predicate : Type 0 where
  kind address thread sequence memory : ℕ → Predicate

unfoldable pub database_filter : Predicate → Result HubError (Clause × ℤ)
database_filter (kind k) = ok (kind_is, as_i64 k)
database_filter (address a) = ok (address_is, as_i64 a)
database_filter (thread t) = ok (thread_is, as_i64 t)
database_filter (sequence s) =
    if leb (2 ^ 63) s
    then err (validation "Trace sequence is out of range")
    else ok (sequence_is, pos s)
database_filter (memory a) = ok (memory_is, as_i64 a)

-- `(0..=u32::MAX as i64).contains(&value)`.
unfoldable pub in_u32 : ℤ → Bool
in_u32 (pos n) = ltb n u32_mod
in_u32 (negsuc n) = false

unfoldable pub negative : ℤ → Bool
negative (pos n) = false
negative (negsuc n) = true

unfoldable pub row_to_record : EventRow → Result HubError Record
unfolding in_u32 negative
row_to_record row =
    if not (length row.payload == 64)
      || (negative row.sequence || (not (in_u32 row.kind) || not (in_u32 row.thread_id)))
    then err (internal "read Trace records")
    else ok (record {
      sequence = as_u64 row.sequence;
      kind = as_u64 row.kind;
      thread_id = as_u64 row.thread_id;
      address = as_u64 row.address;
      args = words_at 8 row.payload 0;
    })

-- `collect::<Result<Vec<_>, _>>()`: the first row that does not decode is the answer.
unfoldable pub read_rows : List EventRow → Result HubError (List Record)
read_rows [] = ok []
read_rows (row ∷ rows) =
    try_result (row_to_record row) λ r. try_result (read_rows rows) λ rs. ok (r ∷ rs)

-- `u64::try_from` of a count.
unfoldable pub as_count : ℤ → Result HubError ℕ
as_count (pos n) = ok n
as_count (negsuc n) = err (internal "Trace database returned a negative count")

-- Position 0 asks for the newest page.
unfoldable pub page_position : ℕ → Result HubError (Option ℤ)
page_position before =
    if before == 0
    then ok none
    else if leb (2 ^ 63) before
    then err (validation "Trace page position is out of range")
    else ok (some (pos before))

module _ (q : Sqlite) (d : q.Database) where
  unfoldable pub count_records : Selection → Result HubError ℕ
  unfolding executed as_count
  count_records s = try_result (executed "count Trace records" (q.count d s)) as_count

  -- The total behind a page position; without one it is the total of the matches.
  unfoldable pub count_eligible : Selection → ℕ → Result HubError ℕ
  unfolding count_records
  count_eligible s matched_total = elim (s.before) [
    | none ↦ ok matched_total
    | some position ↦ count_records s
  ]

  -- What the three statements of a query return, `ORDER BY e.sequence DESC`.
  unfoldable pub run_selection : Selection → ℕ → ℕ → Result HubError (ℕ × ℕ × List Record)
  unfolding count_eligible executed
  run_selection s limit matched_total =
      try_result (count_eligible s matched_total) λ eligible_total.
        try_result (executed "query Trace records" (q.select d s limit))
          λ rows. try_result (read_rows rows) λ records. ok (matched_total, eligible_total, records)

  unfoldable pub query_database : Predicate → ℕ → ℕ → Result HubError (ℕ × ℕ × List Record)
  query_database predicate before limit = try_result (database_filter predicate) λ filter.
      try_result (count_records (record { clause = filter.0; key = filter.1; before = none }))
        λ matched_total. try_result (page_position before) λ position.
          run_selection (record { clause = filter.0; key = filter.1; before = position }) limit
            matched_total

-- The numbers and the events of the answer.
pub record Page : Type 0 where
  pub matched_total : ℕ
  pub eligible_total : ℕ
  pub events : List Record
  pub has_older : Bool
  pub next_before : ℕ

unfoldable pub first_sequence : List Record → ℕ
first_sequence [] = 0
first_sequence (r ∷ rs) = r.sequence

-- `records` comes newest first.
unfoldable pub page_of : ℕ × ℕ × List Record → Page
unfolding first_sequence
page_of (matched_total, eligible_total, records) =
    let events = reverse records in
    let has_older = ltb (length events) eligible_total in
    record {
      matched_total = matched_total;
      eligible_total = eligible_total;
      events = events;
      has_older = has_older;
      next_before = if has_older then first_sequence events else 0;
    }

-- `query` after its arguments are parsed and the database is there.
unfoldable pub query : (q : Sqlite) → q.Database → Predicate → ℕ → ℕ → Result HubError Page
query q d predicate before limit =
    if not (leb 1 limit && leb limit 256)
    then err (validation "Trace index limit must be 1..256")
    else try_result (query_database q d predicate before limit) λ found. ok (page_of found)

-- A caller that goes back page by page while there are older records, the older ones put first.
unfoldable pub browse :
    (q : Sqlite) → q.Database → Predicate → ℕ → ℕ → ℕ → Result HubError (List Record)
browse q d predicate limit zero before = ok []
browse q d predicate limit (suc fuel) before = try_result (query q d predicate before limit) λ page.
    elim (page.has_older) [
      | false ↦ ok page.events
      | true ↦
          try_result (browse q d predicate limit fuel page.next_before)
            λ older. ok (older ++ page.events)
    ]
