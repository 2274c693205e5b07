-- ===== src/Trace/Store.antt =====
-- The SQL database of trace_query.rs: what the program asks of the rusqlite crate, and the
-- documented behaviour of SQL that the theorems assume of it.
use pin_bridge.Common.{
  ℕ, ◌≡◌, List, [], ◌∷◌, Bool, true, false, ◌&&◌, ◌||◌, Option, none, some, All, length, take, keep,
  if◌then◌else◌,
}
use mathlib.Core.List.{reverse}
use pin_bridge.Trace.Signed.{ℤ, pos, equals, less}

pub record EventRow : Type 0 where
  pub sequence : ℤ
  pub kind : ℤ
  pub thread_id : ℤ
  pub address : ℤ
  pub payload : List ℕ

pub record MemoryRow : Type 0 where
  pub sequence : ℤ
  pub memory_address : ℤ

-- `events` and `memory_index`, each in the order of its primary key, the sequence number.
pub record Tables : Type 0 where
  pub events : List EventRow
  pub memory : List MemoryRow

abbrev pub no_rows : Tables
no_rows = record { events = []; memory = [] }

-- The `FROM` and `WHERE` texts that `database_filter` chooses from: `memory_is` joins the two tables.
pub data Clause : Type 0 where
  kind_is address_is thread_is sequence_is memory_is : Clause

-- The condition of a query: clause, key, and the page position of `AND e.sequence < ?2`.
pub record Selection : Type 0 where
  pub clause : Clause
  pub key : ℤ
  pub before : Option ℤ

abbrev pub indexed : List MemoryRow → ℤ → ℤ → Bool
indexed [] sequence key = false
indexed (m ∷ ms) sequence key =
    (equals m.sequence sequence && equals m.memory_address key) || indexed ms sequence key

unfoldable pub matches : List MemoryRow → Clause → ℤ → EventRow → Bool
matches memory kind_is key row = equals row.kind key
matches memory address_is key row = equals row.address key
matches memory thread_is key row = equals row.thread_id key
matches memory sequence_is key row = equals row.sequence key
matches memory memory_is key row = indexed memory row.sequence key

unfoldable pub is_before : Option ℤ → EventRow → Bool
is_before none row = true
is_before (some position) row = less row.sequence position

-- The rows of a query, the sequence numbers ascending.
unfoldable pub selected : Tables → Selection → List EventRow
unfolding matches is_before
selected t s = keep (is_before s.before) (keep (matches t.memory s.clause s.key) t.events)

module _ {A : Type 0} (primary : A → ℤ) where
  -- A row at its place in the order of the key.
  unfoldable pub insert_row : A → List A → List A
  insert_row row [] = row ∷ []
  insert_row row (r ∷ rs) =
      let later = insert_row row rs in
      if less (primary row) (primary r) then row ∷ r ∷ rs else r ∷ later

  abbrev pub Unused : ℤ → List A → Type 0
  Unused key rows = All (λ r. equals (primary r) key ≡ false) rows

abbrev pub event_key : EventRow → ℤ
event_key r = r.sequence

abbrev pub memory_key : MemoryRow → ℤ
memory_key r = r.sequence

-- The statements that the program prepares, each none where SQLite reports an error.
pub record Sqlite : Type 1 where
  pub Database : Type 0
  pub created : Option Database
  pub insert_event : Database → EventRow → Option Database
  pub insert_memory : Database → MemoryRow → Option Database
  pub count : Database → Selection → Option ℤ
  pub select : Database → Selection → ℕ → Option (List EventRow)

-- SQLite on a disk with room: a key that is free is inserted, a query counts and lists its rows.
pub record Serves (q : Sqlite) : Type 0 where
  pub tables : q.Database → Tables
  pub fresh : (d : q.Database) × (q.created ≡ some d) × (tables d ≡ no_rows)
  pub event_inserted :
      (d : q.Database) (row : EventRow)
      → Unused event_key row.sequence (tables d).events
      → (d' : q.Database) × (q.insert_event d row ≡ some d')
        × (tables d' ≡ record (tables d) { events = insert_row event_key row (tables d).events })
  pub memory_inserted :
      (d : q.Database) (row : MemoryRow)
      → Unused memory_key row.sequence (tables d).memory
      → (d' : q.Database) × (q.insert_memory d row ≡ some d')
        × (tables d' ≡ record (tables d) { memory = insert_row memory_key row (tables d).memory })
  pub counted :
      (d : q.Database) (s : Selection) → q.count d s ≡ some (pos (length (selected (tables d) s)))
  pub listed :
      (d : q.Database) (s : Selection) (limit : ℕ)
      → q.select d s limit ≡ some (take limit (reverse (selected (tables d) s)))
