-- ===== src/Trace/Query/Pages.antt =====
-- Paging through a query: every page, and the pages together.
use pin_bridge.Common.{
  ℕ, zero, suc, ◌+◌, ◌-◌, ◌^◌, ◌≤◌, ◌<◌, ◌≡◌, refl, sym, ap, ap₂, ◌∙◌, List, [], ◌∷◌, ◌++◌, map,
  reverse, append-nil, append_assoc, Bool, true, false, ◌&&◌, ◌⊎◌, Option, none, some, inl, inr,
  Bool-cases, arith, All, dec_lt, All-imp, All-intro, All-take, All-reverse, All-of_append,
  All-keep, keep, keep-append, length-keep, keep-All, keep_none, keep-map, length, map-take,
  map-reverse, map_append, length-map, length-drop, length-take, take-append-drop,
  reverse-take-reverse, take, drop, ltb, leb, ◌==◌, if◌then◌else◌, ok, lt→ltb, le→ltb,
}
use pin_bridge.Trace.Signed.{ℤ, pos, less, less-pos}
use pin_bridge.Trace.Store.{Clause, Selection, Sqlite, Serves, is_before, selected, Tables}
use pin_bridge.Trace.Import.{parse_record, event_row, executed}
use pin_bridge.Trace.Import.Rows.{Rising, memory_rows, event_row-sequence, Holds}
use pin_bridge.Trace.Query.{
  Predicate, read_rows, as_count, page_position, count_records, count_eligible, run_selection,
  query_database, Page, first_sequence, page_of, query, browse,
}
use pin_bridge.Trace.Query.Matching.{
  wanted, InWidth, IsRecord, row_to_record-event_row, matches-wanted, Rising-above,
}

abbrev pub seq : List ℕ → ℕ
seq c = (parse_record c).sequence

abbrev Fits : List ℕ → Type 0
Fits c = IsRecord c × (seq c < 2 ^ 63)

Rising-mono : (lo hi : ℕ) (cs : List (List ℕ)) → lo ≤ hi → Rising hi cs → Rising lo cs
Rising-mono lo hi [] h r = tt
Rising-mono lo hi (c ∷ cs) h r = (omega (arith, r.0), r.1, r.2)

Rising-keep :
    (f : List ℕ → Bool) (lo : ℕ) (cs : List (List ℕ)) → Rising lo cs → Rising lo (keep f cs)
Rising-keep f lo [] r = tt
Rising-keep f lo (c ∷ cs) r =
    let rest = Rising-keep f (suc (seq c)) cs r.2 in
    elim (Bool-cases (f c)) [
      | inl t ↦ rw t (r.0, r.1, rest)
      | inr n ↦ rw n (Rising-mono lo (suc (seq c)) (keep f cs) (omega (arith, r.0)) rest)
    ]

Rising-Fits : (lo : ℕ) (cs : List (List ℕ)) → All IsRecord cs → Rising lo cs → All Fits cs
Rising-Fits lo [] are r = tt
Rising-Fits lo (c ∷ cs) are r = ((are.0, r.1), Rising-Fits (suc (seq c)) cs are.1 r.2)

Rising-below :
    (lo : ℕ) (pre : List (List ℕ)) (c : List ℕ) (post : List (List ℕ))
    → Rising lo (pre ++ c ∷ post)
    → All (λ c'. seq c' < seq c) pre × (lo ≤ seq c) × All (λ c'. seq c ≤ seq c') post
Rising-below lo [] c post r = (
  tt,
  r.0,
  All-imp (λ c'. suc (seq c) ≤ seq c') (λ c'. seq c ≤ seq c') post (λ c' h. omega arith)
      (Rising-above (suc (seq c)) post r.2),
)
Rising-below lo (p ∷ pre) c post r =
    let (below, up, above) = Rising-below (suc (seq p)) pre c post r.2 in
    ((omega arith, below), omega (arith, r.0), above)

-- What `AND e.sequence < ?2` leaves, at the number of a record that matches.
keep_before :
    (lo : ℕ) (pre : List (List ℕ)) (c : List ℕ) (post : List (List ℕ))
    → Rising lo (pre ++ c ∷ post)
    → keep (is_before (some (pos (seq c)))) (map event_row (pre ++ c ∷ post)) ≡ map event_row pre
unfolding is_before
keep_before lo pre c post r =
    let (below, up, above) = Rising-below lo pre c post r in
    let test : (c' : List ℕ) → less (event_row c').sequence (pos (seq c)) ≡ ltb (seq c') (seq c) =
      λ c'. rw (event_row-sequence c') (less-pos (seq c') (seq c)) in
    let before : List ℕ → Bool = λ c'. ltb (seq c') (seq c) in
    keep-map event_row (is_before (some (pos (seq c)))) before (pre ++ c ∷ post)
      (All-intro _ (pre ++ c ∷ post) test)
    ∙ ap (map event_row) (
        keep-append before pre (c ∷ post)
        ∙ ap₂ (λ xs ys. xs ++ ys)
            (keep-All before pre (All-imp _ _ pre (λ c' h. lt→ltb (seq c') (seq c) h) below))
            (keep_none before (c ∷ post) (
              le→ltb (seq c) (seq c) (omega arith),
              All-imp _ _ post (λ c' h. le→ltb (seq c') (seq c) h) above,
            ))
        ∙ append-nil pre)

read_rows-map :
    (cs : List (List ℕ)) → All Fits cs → read_rows (map event_row cs) ≡ ok (map parse_record cs)
unfolding read_rows
read_rows-map [] h = refl
read_rows-map (c ∷ cs) h = rw (row_to_record-event_row c (h.0).0 (h.0).1, read_rows-map cs h.1) refl

-- The records of one page, newest first, turned round.
reverse-page :
    (limit : ℕ) (cs : List (List ℕ))
    → reverse (map parse_record (take limit (reverse cs)))
      ≡ map parse_record (drop (length cs - limit) cs)
reverse-page limit cs =
    sym (map-reverse parse_record (take limit (reverse cs)))
    ∙ ap (map parse_record) (reverse-take-reverse limit cs)

-- The answer that shows the last `limit` of some records, of `total` that match.
unfoldable pub page_at : ℕ → ℕ → List (List ℕ) → Page
page_at total limit eligible =
    let events = map parse_record (drop (length eligible - limit) eligible) in
    record {
      matched_total = total;
      eligible_total = length eligible;
      events = events;
      has_older = ltb limit (length eligible);
      next_before = if ltb limit (length eligible) then first_sequence events else 0;
    }

page_of-page_at :
    (total limit : ℕ) (eligible : List (List ℕ))
    → page_of (total, length eligible, map parse_record (take limit (reverse eligible)))
      ≡ page_at total limit eligible
unfolding page_of page_at
page_of-page_at total limit eligible =
    let e : ltb (length (map parse_record (drop (length eligible - limit) eligible)))
          (length eligible)
        ≡ ltb limit (length eligible) =
      rw
        (
          length-map parse_record (drop (length eligible - limit) eligible),
          length-drop (length eligible - limit) eligible,
        )
        (ground arith) in
    rw (reverse-page limit eligible, e) refl

Rising-length :
    (lo : ℕ) (pre : List (List ℕ)) (c : List ℕ) (post : List (List ℕ))
    → Rising lo (pre ++ c ∷ post)
    → lo + length pre ≤ seq c
Rising-length lo [] c post r = omega (arith, r.0)
Rising-length lo (p ∷ pre) c post r = omega (arith, r.0, Rising-length (suc (seq p)) pre c post r.2)

drop-head :
    (k : ℕ) (cs : List (List ℕ))
    → k < length cs
    → (c : List ℕ) × (post : List (List ℕ)) × (drop k cs ≡ c ∷ post)
drop-head zero [] h = absurd (omega arith)
drop-head zero (c ∷ cs) h = (c, cs, refl)
drop-head (suc k) [] h = absurd (omega arith)
drop-head (suc k) (c ∷ cs) h = drop-head k cs (omega arith)

-- The tables of an import, a predicate and a limit that the hub accepts.
module _ (q : Sqlite) (serves : Serves q) (d : q.Database) (cs : List (List ℕ))
    (are : All IsRecord cs) (rising : Rising 0 cs)
    (stored : Holds q serves d (map event_row cs) (memory_rows cs)) (predicate : Predicate)
    (width : InWidth predicate) (limit : ℕ) (some_rows : 1 ≤ limit) (few_rows : limit ≤ 256) where
  -- The records that the predicate asks for.
  abbrev pub found : List (List ℕ)
  found = keep (λ c. wanted predicate (parse_record c)) cs

  found-Rising : Rising 0 found
  found-Rising = Rising-keep (λ c. wanted predicate (parse_record c)) 0 cs rising

  found-Fits : All Fits found
  found-Fits =
      All-keep Fits (λ c. wanted predicate (parse_record c)) cs (Rising-Fits 0 cs are rising)

  filter : Clause × ℤ
  filter = (matches-wanted predicate cs width are rising).0

  at_position : Option ℤ → Selection
  at_position position = record { clause = filter.0; key = filter.1; before = position }

  selected-at :
      (position : Option ℤ)
      → selected (serves.tables d) (at_position position)
        ≡ keep (is_before position) (map event_row found)
  unfolding selected at_position filter
  selected-at position =
      ap (λ (t : Tables). selected t (at_position position)) stored
      ∙ ap (keep (is_before position)) (matches-wanted predicate cs width are rising).2

  -- A page position and the records behind it: all of them, or those before a certain one.
  abbrev pub At : ℕ → List (List ℕ) → Type 0
  At before eligible =
      ((before ≡ 0) × (eligible ≡ found))
      ⊎ ((c : List ℕ) × (post : List (List ℕ)) × (found ≡ eligible ++ c ∷ post)
          × (before ≡ seq c)
          × (0 < before))

  record Behind (before : ℕ) (eligible : List (List ℕ)) : Type 0 where
    position : Option ℤ
    placed : page_position before ≡ ok position
    rows : selected (serves.tables d) (at_position position) ≡ map event_row eligible
    fit : All Fits eligible
    counted : count_eligible q d (at_position position) (length found) ≡ ok (length eligible)

  count_records-rows :
      (position : Option ℤ) (xs : List (List ℕ))
      → selected (serves.tables d) (at_position position) ≡ map event_row xs
      → count_records q d (at_position position) ≡ ok (length xs)
  unfolding count_records executed as_count
  count_records-rows position xs e =
      rw (serves.counted d (at_position position), e, length-map event_row xs) refl

  all_rows : selected (serves.tables d) (at_position none) ≡ map event_row found
  unfolding is_before
  all_rows =
      selected-at none
      ∙ keep-All (is_before none) (map event_row found)
          (All-intro _ (map event_row found) (λ r. refl))

  At-Behind : (before : ℕ) (eligible : List (List ℕ)) → At before eligible → Behind before eligible
  unfolding page_position count_eligible at_position
  At-Behind before eligible (inl (z, e)) = record {
    position = none;
    placed = rw z refl;
    rows = all_rows ∙ ap (map event_row) (sym e);
    fit = rw e found-Fits;
    counted = ap (λ xs. ok (length xs)) (sym e);
  }
  At-Behind before eligible (inr (c, post, e, n, up)) =
      let ordered : Rising 0 (eligible ++ c ∷ post) = rw (← e) found-Rising in
      let all : All Fits (eligible ++ c ∷ post) = rw (← e) found-Fits in
      let (before_fit, (c_fit, _)) = All-of_append Fits eligible (c ∷ post) all in
      let fit : seq c < 2 ^ 63 = c_fit.1 in
      let rows : selected (serves.tables d) (at_position (some (pos (seq c))))
          ≡ map event_row eligible =
        selected-at (some (pos (seq c)))
        ∙ ap (λ xs. keep (is_before (some (pos (seq c)))) (map event_row xs)) e
        ∙ keep_before 0 eligible c post ordered in
      let t1 : (before == 0) ≡ false = ground arith in
      let t2 : leb (2 ^ 63) before ≡ false = ground arith in
      record {
        position = some (pos (seq c));
        placed = rw (t1, t2, n) refl;
        rows = rows;
        fit = before_fit;
        counted = count_records-rows (some (pos (seq c))) eligible rows;
      }

  select-rows :
      (position : Option ℤ) (eligible : List (List ℕ))
      → selected (serves.tables d) (at_position position) ≡ map event_row eligible
      → q.select d (at_position position) limit
        ≡ some (map event_row (take limit (reverse eligible)))
  select-rows position eligible e =
      serves.listed d (at_position position) limit
      ∙ ap (λ rows. some (take limit (reverse rows))) e
      ∙ ap (λ rows. some (take limit rows)) (sym (map-reverse event_row eligible))
      ∙ ap some (sym (map-take event_row limit (reverse eligible)))

  run_selection-page :
      (before : ℕ) (eligible : List (List ℕ)) (b : Behind before eligible)
      → run_selection q d (at_position b.position) limit (length found)
        ≡ ok (length found, length eligible, map parse_record (take limit (reverse eligible)))
  unfolding run_selection executed
  run_selection-page before eligible b =
      let page = take limit (reverse eligible) in
      let fit : All Fits page =
        All-take Fits limit (reverse eligible) (All-reverse Fits eligible b.fit) in
      rw (b.counted, select-rows b.position eligible b.rows, read_rows-map page fit) refl

  -- For the tables of an import whose record numbers rise strictly and are below 2^63, a predicate
  -- whose value fits its column, a limit from 1 to 256, and a page position that is 0 or the number
  -- of a record that the predicate asks for: the query succeeds, and the page is the last `limit` of
  -- the matching records behind that position (all of them for 0), in the order of the file, with the
  -- totals, and says whether there are older ones and where they start.
  pub query-page :
      (before : ℕ) (eligible : List (List ℕ))
      → At before eligible
      → query q d predicate before limit ≡ ok (page_at (length found) limit eligible)
  unfolding query query_database at_position filter
  query-page before eligible at =
      let b = At-Behind before eligible at in
      let known = (matches-wanted predicate cs width are rising).1 in
      let all = count_records-rows none found all_rows in
      let t : (leb 1 limit && leb limit 256) ≡ true = ground arith in
      rw
        (
          t,
          known,
          all,
          b.placed,
          run_selection-page before eligible b,
          page_of-page_at (length found) limit eligible,
        )
        refl

  At-prefix :
      (before : ℕ) (eligible : List (List ℕ))
      → At before eligible
      → (rest : List (List ℕ)) × (found ≡ eligible ++ rest)
  At-prefix before eligible (inl (z, e)) = ([], sym e ∙ sym (append-nil eligible))
  At-prefix before eligible (inr (c, post, e, n, up)) = (c ∷ post, e)

  -- Where the next page starts, and what it has behind it.
  next-At :
      (before : ℕ) (eligible : List (List ℕ))
      → At before eligible
      → limit < length eligible
      → At
          (first_sequence (map parse_record (drop (length eligible - limit) eligible)))
          (take (length eligible - limit) eligible)
  unfolding first_sequence
  next-At before eligible at older =
      let k = length eligible - limit in
      let (c, post, e) = drop-head k eligible (omega arith) in
      let cut : eligible ≡ take k eligible ++ c ∷ post =
        sym (take-append-drop k eligible) ∙ ap (λ xs. take k eligible ++ xs) e in
      let (rest, whole) = At-prefix before eligible at in
      let split : found ≡ take k eligible ++ c ∷ (post ++ rest) =
        whole ∙ ap (λ xs. xs ++ rest) cut ∙ append_assoc (take k eligible) (c ∷ post) rest in
      let ordered : Rising 0 (take k eligible ++ c ∷ (post ++ rest)) = rw (← split) found-Rising in
      let up : 0 < seq c = omega (
        arith,
        Rising-length 0 (take k eligible) c (post ++ rest) ordered,
        length-take k eligible,
      ) in
      rw e (inr (c, post ++ rest, split, refl, up))

  browse-found :
      (fuel before : ℕ) (eligible : List (List ℕ))
      → At before eligible
      → length eligible < fuel
      → browse q d predicate limit fuel before ≡ ok (map parse_record eligible)
  unfolding browse page_at
  browse-found zero before eligible at enough = absurd (omega arith)
  browse-found (suc fuel) before eligible at enough =
      let page = query-page before eligible at in
      let k = length eligible - limit in
      elim (dec_lt limit (length eligible)) [
        | yes older ↦
            let t : ltb limit (length eligible) ≡ true = lt→ltb limit (length eligible) older in
            let rest =
              browse-found fuel _ (take k eligible) (next-At before eligible at older)
                (omega (arith, length-take k eligible)) in
            let together : map parse_record (take k eligible) ++ map parse_record (drop k eligible)
                ≡ map parse_record eligible =
              sym (map_append parse_record (take k eligible) (drop k eligible))
              ∙ ap (map parse_record) (take-append-drop k eligible) in
            rw (browse, page, t, rest, together) refl
        | no newest ↦
            let t : ltb limit (length eligible) ≡ false =
              le→ltb limit (length eligible) (omega arith) in
            let z : k ≡ 0 = omega arith in rw (browse, page, t, z) refl
      ]

  -- Going back page by page from the newest one, with any page size the hub accepts, ends and shows
  -- each record that the predicate asks for exactly once, in the order of the file.
  pub browse-filter : browse q d predicate limit (suc (length cs)) 0 ≡ ok (map parse_record found)
  browse-filter =
      browse-found (suc (length cs)) 0 found (inl (refl, refl))
        (omega (arith, length-keep (λ c. wanted predicate (parse_record c)) cs))
