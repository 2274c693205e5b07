-- ===== src/Trace/Import/Whole.antt =====
-- The import loop as a whole: a file is so many records of 88 bytes and a tail.
use pin_bridge.Common.{
  ℕ, zero, suc, ◌≤◌, ◌<◌, ◌≡◌, refl, sym, List, [], ◌∷◌, ◌++◌, false, arith, append_assoc, length,
  length-append, take, drop, take-append_length, drop-append_length, take-ge, inl, inr, Bool-cases,
  All, concat, ==_iff, ◌==◌, Result, ok, try_result, Option,
}
use pin_bridge.Trace.{HubError}
use pin_bridge.Trace.Artifact.{record_len}
use pin_bridge.Trace.Store.{Sqlite}
use pin_bridge.Trace.Import.{import_record, import_loop, build_database, Imported, executed}
use pin_bridge.Trace.Import.Fill.{Steady, at, fill_lem}

abbrev pub IsWhole : List ℕ → Type 0
IsWhole c = length c ≡ record_len

-- What an import has to do, with the file already cut up: the records in turn, then the tail.
unfoldable pub insert_all :
    (q : Sqlite) → q.Database → ℕ → List (List ℕ) → List ℕ → Result HubError (Imported q.Database)
insert_all q d count [] tail =
    ok (record { database = d; physical_records = count; truncated_tail = length tail })
insert_all q d count (c ∷ cs) tail =
    try_result (import_record q d c) λ d'. insert_all q d' (suc count) cs tail

module _ (q : Sqlite) (grants : ℕ → Option ℕ) (steady : Steady grants) where
  import_loop_end :
      (fuel : ℕ) (d : q.Database) (count calls : ℕ) (tail : List ℕ)
      → length tail < record_len
      → import_loop q (suc fuel) d count (at tail calls grants) ≡ insert_all q d count [] tail
  unfolding import_loop insert_all
  import_loop_end fuel d count calls tail short =
      let (calls', e) =
        fill_lem grants steady record_len [] tail calls (omega arith) (omega arith) in
      let t : take record_len tail ≡ tail = take-ge tail 88 (omega arith) in
      let part : (length tail == 88) ≡ false = ground arith in
      elim (Bool-cases (length tail == 0)) [
        | inl z ↦ rw (import_loop, e, t, z, (==_iff (length tail) 0).0 z) refl
        | inr n ↦ rw (import_loop, e, t, n, part) refl
      ]

  import_loop_lem :
      (cs : List (List ℕ)) (fuel : ℕ) (d : q.Database) (count calls : ℕ) (tail : List ℕ)
      → length cs < fuel
      → All IsWhole cs
      → length tail < record_len
      → import_loop q fuel d count (at (concat cs ++ tail) calls grants)
        ≡ insert_all q d count cs tail
  unfolding import_loop insert_all
  import_loop_lem [] zero d count calls tail enough whole short = absurd (omega arith)
  import_loop_lem [] (suc fuel) d count calls tail enough whole short =
      import_loop_end fuel d count calls tail short
  import_loop_lem (c ∷ cs) zero d count calls tail enough whole short = absurd (omega arith)
  import_loop_lem (c ∷ cs) (suc fuel) d count calls tail enough whole short =
      let (calls', e) =
        fill_lem grants steady record_len [] ((c ++ concat cs) ++ tail) calls (omega arith)
          (omega arith) in
      let t : take record_len ((c ++ concat cs) ++ tail) ≡ c =
        rw (append_assoc c (concat cs) tail)
          (take-append_length c (concat cs ++ tail) record_len (sym (whole.0))) in
      let r : drop record_len ((c ++ concat cs) ++ tail) ≡ concat cs ++ tail =
        rw (append_assoc c (concat cs) tail)
          (drop-append_length c (concat cs ++ tail) record_len (sym (whole.0))) in
      rw (import_loop, e, t, r, whole.0)
        λ i.
          try_result (import_record q d c)
            λ d'. import_loop_lem cs fuel d' (suc count) calls' tail (omega arith) whole.1 short i

  enough_fuel : (cs : List (List ℕ)) → All IsWhole cs → length cs ≤ length (concat cs)
  enough_fuel [] whole = omega arith
  enough_fuel (c ∷ cs) whole =
      omega (arith, enough_fuel cs whole.1, whole.0, length-append c (concat cs))

  -- A file of whole records and a shorter tail, read without an I/O error, is imported record by
  -- record and the tail counted, however the calls of `read` cut the bytes up: the loop ends, and
  -- it does what a fold over the records does.
  pub build_database-insert_all :
      (cs : List (List ℕ)) (tail : List ℕ) (calls : ℕ)
      → All IsWhole cs
      → length tail < record_len
      → build_database q (at (concat cs ++ tail) calls grants)
        ≡ try_result (executed "initialize Trace database" q.created) λ d. insert_all q d 0 cs tail
  unfolding build_database
  build_database-insert_all cs tail calls whole short = λ i.
      try_result (executed "initialize Trace database" q.created) λ d.
        import_loop_lem cs (suc (length (concat cs ++ tail))) d 0 calls tail
          (omega (arith, enough_fuel cs whole, length-append (concat cs) tail)) whole short i
