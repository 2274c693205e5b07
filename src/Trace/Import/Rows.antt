-- ===== src/Trace/Import/Rows.antt =====
-- The tables after an import of records whose sequence numbers rise.
use pin_bridge.Common.{
  ℕ, suc, ◌+◌, ◌≤◌, ◌<◌, ◌^◌, ◌≡◌, refl, sym, ap, subst, ◌∙◌, List, [], ◌∷◌, ◌++◌, map, append-nil,
  append_assoc, false, some, inl, inr, Bool-cases, arith, All, All-append, Option, concat, length,
  leb, le→ltb, ok, try_result, if◌then◌else◌,
}
use pin_bridge.Trace.{Record}
use pin_bridge.Trace.Signed.{ℤ, pos, equals, less, less-pos}
use pin_bridge.Trace.Store.{
  EventRow, MemoryRow, Tables, Sqlite, Unused, Serves, insert_row, event_key, memory_key,
}
use pin_bridge.Trace.Import.{
  parse_record, event_row, memory_row, is_memory, insert_memory_row, import_record, executed,
}
use pin_bridge.Trace.Artifact.{record_len}
use pin_bridge.Trace.Import.{build_database}
use pin_bridge.Trace.Import.Fill.{Steady, at}
use pin_bridge.Trace.Import.Whole.{insert_all, IsWhole, build_database-insert_all}

-- The sequence numbers rise strictly, from `lo` on, and fit SQLite's integers.
abbrev pub Rising : ℕ → List (List ℕ) → Type 0
Rising lo [] = Unit
Rising lo (c ∷ cs) =
    (lo ≤ (parse_record c).sequence)
    × ((parse_record c).sequence < 2 ^ 63)
    × Rising (suc (parse_record c).sequence) cs

-- The rows of the table `memory_index` for some records.
unfoldable pub memory_rows : List (List ℕ) → List MemoryRow
memory_rows [] = []
memory_rows (c ∷ cs) =
    if is_memory (parse_record c).kind
    then memory_row (parse_record c) ∷ memory_rows cs
    else memory_rows cs

module _ {A : Type 0} (primary : A → ℤ) where
  -- The keys of a table's rows are numbers below `lo`.
  abbrev pub Below : ℕ → List A → Type 0
  Below lo rows = All (λ r. (m : ℕ) × (primary r ≡ pos m) × (m < lo)) rows

  Below-Unused : (lo n : ℕ) (rows : List A) → lo ≤ n → Below lo rows → Unused primary (pos n) rows
  unfolding equals
  Below-Unused lo n [] h b = tt
  Below-Unused lo n (r ∷ rs) h b =
      let (m, e, lt) = b.0 in (rw e (ground arith), Below-Unused lo n rs h b.1)

  Below-mono : (lo hi : ℕ) (rows : List A) → lo ≤ hi → Below lo rows → Below hi rows
  Below-mono lo hi [] h b = tt
  Below-mono lo hi (r ∷ rs) h b =
      let (m, e, lt) = b.0 in ((m, e, omega arith), Below-mono lo hi rs h b.1)

  Below-append :
      (n : ℕ) (rows : List A) (row : A)
      → primary row ≡ pos n
      → Below n rows
      → Below (suc n) (rows ++ row ∷ [])
  Below-append n rows row e b =
      All-append (λ r. (m : ℕ) × (primary r ≡ pos m) × (m < suc n)) rows (row ∷ [])
        (Below-mono n (suc n) rows (omega arith) b) ((n, e, omega arith), tt)

  -- A new largest key goes to the end of the table.
  insert_row_last :
      (n : ℕ) (row : A) (rows : List A)
      → primary row ≡ pos n
      → Below n rows
      → insert_row primary row rows ≡ rows ++ row ∷ []
  unfolding insert_row
  insert_row_last n row [] e b = refl
  insert_row_last n row (r ∷ rs) e b =
      let (m, e', lt) = b.0 in
      let later : less (primary row) (primary r) ≡ false =
        rw (e, e', less-pos n m) (le→ltb n m (omega arith)) in
      rw later (ap (◌∷◌ r) (insert_row_last n row rs e b.1))

pub event_row-sequence : (c : List ℕ) → (event_row c).sequence ≡ pos (parse_record c).sequence
unfolding event_row
event_row-sequence c = refl

memory_row-sequence : (r : Record) → (memory_row r).sequence ≡ pos r.sequence
unfolding memory_row
memory_row-sequence r = refl

module _ (q : Sqlite) (serves : Serves q) where
  -- The database holds these rows.
  abbrev pub Holds : q.Database → List EventRow → List MemoryRow → Type 0
  Holds d es ms = serves.tables d ≡ record { events = es; memory = ms }

  insert_event_last :
      (d : q.Database) (n : ℕ) (es : List EventRow) (ms : List MemoryRow) (row : EventRow)
      → Holds d es ms
      → Below event_key n es
      → row.sequence ≡ pos n
      → (d' : q.Database) × (q.insert_event d row ≡ some d') × Holds d' (es ++ row ∷ []) ms
  insert_event_last d n es ms row stored below e =
      let free : Unused event_key row.sequence (serves.tables d).events =
        subst (λ (t : Tables). Unused event_key row.sequence t.events) (sym stored)
          (rw e (Below-Unused event_key n n es (omega arith) below)) in
      let (d', done, now) = serves.event_inserted d row free in
      (
        d',
        done,
        now
            ∙ ap (λ (t : Tables). record t { events = insert_row event_key row t.events }) stored
            ∙ ap (λ rows. record { events = rows; memory = ms })
                (insert_row_last event_key n row es e below),
      )

  insert_memory_last :
      (d : q.Database) (n : ℕ) (es : List EventRow) (ms : List MemoryRow) (row : MemoryRow)
      → Holds d es ms
      → Below memory_key n ms
      → row.sequence ≡ pos n
      → (d' : q.Database) × (q.insert_memory d row ≡ some d') × Holds d' es (ms ++ row ∷ [])
  insert_memory_last d n es ms row stored below e =
      let free : Unused memory_key row.sequence (serves.tables d).memory =
        subst (λ (t : Tables). Unused memory_key row.sequence t.memory) (sym stored)
          (rw e (Below-Unused memory_key n n ms (omega arith) below)) in
      let (d', done, now) = serves.memory_inserted d row free in
      (
        d',
        done,
        now
            ∙ ap (λ (t : Tables). record t { memory = insert_row memory_key row t.memory }) stored
            ∙ ap (λ rows. record { events = es; memory = rows })
                (insert_row_last memory_key n row ms e below),
      )

  -- One record, above all that are there.
  import_record_lem :
      (d : q.Database) (es : List EventRow) (ms : List MemoryRow) (c : List ℕ)
      → Holds d es ms
      → Below event_key (parse_record c).sequence es
      → Below memory_key (parse_record c).sequence ms
      → (parse_record c).sequence < 2 ^ 63
      → (d' : q.Database) × (import_record q d c ≡ ok d')
        × Holds d' (es ++ event_row c ∷ []) (ms ++ memory_rows (c ∷ []))
        × Below memory_key (suc (parse_record c).sequence) (ms ++ memory_rows (c ∷ []))
  unfolding import_record executed insert_memory_row memory_rows
  import_record_lem d es ms c stored below below' fits =
      let n = (parse_record c).sequence in
      let small : leb (2 ^ 63) n ≡ false = ground arith in
      let (d1, done, now) =
        insert_event_last d n es ms (event_row c) stored below (event_row-sequence c) in
      elim (Bool-cases (is_memory (parse_record c).kind)) [
        | inl m ↦
            let (d2, done', now') =
              insert_memory_last d1 n (es ++ event_row c ∷ []) ms (memory_row (parse_record c)) now
                below' (memory_row-sequence (parse_record c)) in
            (
              d2,
              rw (small, done, m, done') refl,
              rw m now',
              rw m (
                  Below-append memory_key n ms (memory_row (parse_record c))
                    (memory_row-sequence (parse_record c)) below'),
            )
        | inr m ↦ (
          d1,
          rw (small, done, m) refl,
          rw (m, append-nil ms) now,
          rw (m, append-nil ms) (Below-mono memory_key n (suc n) ms (omega arith) below'),
        )
      ]

  memory_rows-cons :
      (c : List ℕ) (cs : List (List ℕ))
      → memory_rows (c ∷ cs) ≡ memory_rows (c ∷ []) ++ memory_rows cs
  unfolding memory_rows
  memory_rows-cons c cs = ground arith

  insert_all_lem :
      (cs : List (List ℕ)) (lo : ℕ) (d : q.Database) (es : List EventRow) (ms : List MemoryRow)
      (count : ℕ) (tail : List ℕ)
      → Rising lo cs
      → Holds d es ms
      → Below event_key lo es
      → Below memory_key lo ms
      → (d' : q.Database) × (insert_all q d count cs tail
          ≡ ok (record {
            database = d';
            physical_records = length cs + count;
            truncated_tail = length tail;
          }))
        × Holds d' (es ++ map event_row cs) (ms ++ memory_rows cs)
  unfolding insert_all memory_rows
  insert_all_lem [] lo d es ms count tail rising stored below below' =
      let e : 0 + count ≡ count = omega arith in
      (d, rw e refl, rw (append-nil es, append-nil ms) stored)
  insert_all_lem (c ∷ cs) lo d es ms count tail rising stored below below' =
      let n = (parse_record c).sequence in
      let (d1, done, now, up') =
        import_record_lem d es ms c stored (Below-mono event_key lo n es rising.0 below)
          (Below-mono memory_key lo n ms rising.0 below') rising.1 in
      let up : Below event_key (suc n) (es ++ event_row c ∷ []) =
        Below-append event_key n es (event_row c) (event_row-sequence c)
          (Below-mono event_key lo n es rising.0 below) in
      let (d2, rest, final) =
        insert_all_lem cs (suc n) d1 (es ++ event_row c ∷ []) (ms ++ memory_rows (c ∷ []))
          (suc count) tail rising.2 now up up' in
      let counted : length cs + suc count ≡ suc (length cs) + count = omega arith in
      (
        d2,
        rw (done, rest, counted) refl,
        rw (memory_rows-cons c cs) (
            rw
              (
                ← append_assoc es (event_row c ∷ []) (map event_row cs),
                ← append_assoc ms (memory_rows (c ∷ [])) (memory_rows cs),
              )
              final),
      )

  -- A file of whole records with rising sequence numbers and a shorter tail, read without an I/O
  -- error into a new database: the import succeeds, counts the records and the bytes of the tail,
  -- and the tables then hold the rows of exactly these records, in their order.
  pub build_database_lem :
      (grants : ℕ → Option ℕ) (cs : List (List ℕ)) (tail : List ℕ) (calls : ℕ)
      → Steady grants
      → All IsWhole cs
      → length tail < record_len
      → Rising 0 cs
      → (d : q.Database) × (build_database q (at (concat cs ++ tail) calls grants)
          ≡ ok
              (record { database = d; physical_records = length cs; truncated_tail = length tail }))
        × Holds d (map event_row cs) (memory_rows cs)
  unfolding executed
  build_database_lem grants cs tail calls steady whole short rising =
      let (d0, new, none_yet) = serves.fresh in
      let (d, done, now) = insert_all_lem cs 0 d0 [] [] 0 tail rising none_yet tt tt in
      let counted : length cs + 0 ≡ length cs = omega arith in
      (
        d,
        build_database-insert_all q grants steady cs tail calls whole short
            ∙ ap
                (λ o.
                  try_result (executed "initialize Trace database" o)
                    λ d'. insert_all q d' 0 cs tail)
                new
            ∙ done
            ∙ ap
                (λ n.
                  ok (record { database = d; physical_records = n; truncated_tail = length tail }))
                counted,
        now,
      )
