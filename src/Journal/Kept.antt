-- ===== src/Journal/Kept.antt =====
-- What the journal keeps of its log, and so what `list` and `get` answer.
use pin_bridge.Common.{
  ℕ, suc, ◌+◌, ◌-◌, ◌<◌, ◌≤◌, min, max, ◌≡◌, refl, sym, ap, ap₂, ◌∙◌, List, [], ◌∷◌, ◌++◌, reverse,
  map, length, take, drop, ltb, u64_mod, arith, reverse-take-reverse, drop-append, drop-drop,
  length-drop, length-append, length-map, drop-nil, by_cases, map-drop, take-take,
}
use mathlib.Core.List.{reverse-reverse}
use pin_bridge.Journal.{
  Text, operation_id_of, Activity, Inner, new, evict, begin, started, list, find_row, get,
  complete_row, finish,
}
use pin_bridge.Journal.Log.{
  Call, begins, finishes, step, run, log_step, log_of, completed, Numbered, Numbered-append,
  Numbered-drop, Numbered-completed, complete_row-map,
}

module _ {Value : Type 0} where
  -- A full journal drops what does not fit.
  evict-drop :
      (capacity : ℕ) (rows : List (Activity Value))
      → evict capacity rows ≡ drop (length rows - capacity) rows
  unfolding evict
  evict-drop capacity [] = sym (drop-nil (0 - capacity))
  evict-drop capacity (r ∷ rows) =
      by_cases (λ t. t ≡ drop (suc (length rows) - capacity) (r ∷ rows))
        (ltb capacity (suc (length rows))) (evict capacity rows) (r ∷ rows)
        (λ full.
          let e : suc (length rows) - capacity ≡ suc (length rows - capacity) = ground arith in
          evict-drop capacity rows ∙ rw e refl)
        (λ fits. let e : suc (length rows) - capacity ≡ 0 = ground arith in rw e refl)

  rows-append :
      (capacity : ℕ) (log : List (Activity Value)) (r : Activity Value)
      → 1 ≤ capacity
      → evict capacity (drop (length log - capacity) log ++ r ∷ [])
        ≡ drop (length (log ++ r ∷ []) - capacity) (log ++ r ∷ [])
  rows-append capacity log r some_rows =
      let n = length log - capacity in
      let whole : drop n log ++ r ∷ [] ≡ drop n (log ++ r ∷ []) =
        sym (drop-append n log (r ∷ []) (omega arith)) in
      let w = length (drop n log ++ r ∷ []) - capacity in
      let j : length (log ++ r ∷ []) - capacity ≡ n + w = omega (
        arith,
        length-append log (r ∷ []),
        length-append (drop n log) (r ∷ []),
        length-drop n log,
      ) in
      evict-drop capacity (drop n log ++ r ∷ [])
      ∙ ap (drop w) whole
      ∙ drop-drop (log ++ r ∷ []) n w (length (log ++ r ∷ []) - capacity) j

  -- What the journal keeps of the log.
  pub record Keeps (capacity : ℕ) (i : Inner Value) (log : List (Activity Value)) : Type 0 where
    pub numbered : Numbered 1 log
    pub next_free : i.next ≡ suc (length log)
    pub capacity_kept : i.capacity ≡ capacity
    pub rows_kept : i.rows ≡ drop (length log - capacity) log

  module _ (empty_object : Value) where
    step-Keeps :
        (capacity : ℕ) (i : Inner Value) (log : List (Activity Value)) (c : Call Value)
        → 1 ≤ capacity
        → length log + 2 < u64_mod
        → Keeps capacity i log
        → Keeps capacity (step empty_object i c) (log_step empty_object log c)
    unfolding step log_step begin finish started
    step-Keeps capacity i log (begins actor action purpose parent now) some_rows small k =
        let row =
          λ (n : ℕ). started empty_object (operation_id_of n) actor action purpose parent now in
        let next_id : suc (length log) ≡ 1 + length log = omega arith in
        record {
          numbered =
              Numbered-append 1 log (row (suc (length log))) k.numbered
                (ap operation_id_of next_id);
          next_free =
              let l = length-append log (row (suc (length log)) ∷ []) in
              ground (arith, l, k.next_free);
          capacity_kept = k.capacity_kept;
          rows_kept =
              ap₂ (λ n rs. evict i.capacity (rs ++ row n ∷ [])) k.next_free k.rows_kept
              ∙ ap (λ c. evict c (drop (length log - capacity) log ++ row (suc (length log)) ∷ []))
                  k.capacity_kept
              ∙ rows-append capacity log (row (suc (length log))) some_rows;
        }
    step-Keeps capacity i log (finishes id outcome refs now) some_rows small k =
        let f = completed id outcome refs now in
        let n = length log - capacity in
        record {
          numbered = Numbered-completed id outcome refs now 1 log k.numbered;
          next_free = k.next_free ∙ ap suc (sym (length-map f log));
          capacity_kept = k.capacity_kept;
          rows_kept =
              ap (complete_row id outcome refs now) k.rows_kept
              ∙ complete_row-map id outcome refs now (1 + n) (drop n log)
                  (omega (arith, length-drop n log)) (Numbered-drop n 1 log k.numbered)
              ∙ map-drop f n log
              ∙ ap (λ l. drop (l - capacity) (map f log)) (sym (length-map f log));
        }

    length-log_step :
        (log : List (Activity Value)) (c : Call Value)
        → length (log_step empty_object log c) ≤ suc (length log)
    unfolding log_step
    length-log_step log (begins actor action purpose parent now) = omega (
      arith,
      length-append log (
          started empty_object (operation_id_of (suc (length log))) actor action purpose parent now
          ∷ []),
    )
    length-log_step log (finishes id outcome refs now) =
        omega (arith, length-map (completed id outcome refs now) log)

    run-Keeps :
        (capacity : ℕ) (cs : List (Call Value)) (i : Inner Value) (log : List (Activity Value))
        → 1 ≤ capacity
        → length log + length cs + 2 < u64_mod
        → Keeps capacity i log
        → Keeps capacity (run empty_object i cs) (log_of empty_object log cs)
    unfolding run log_of
    run-Keeps capacity [] i log some_rows small k = k
    run-Keeps capacity (c ∷ cs) i log some_rows small k =
        run-Keeps capacity cs (step empty_object i c) (log_step empty_object log c) some_rows
          (omega (arith, length-log_step log c))
          (step-Keeps capacity i log c some_rows (omega arith) k)

    new-Keeps : (capacity : ℕ) → Keeps (max capacity 1) (new capacity) []
    unfolding new
    new-Keeps capacity = record {
      numbered = tt;
      next_free = refl;
      capacity_kept = refl;
      rows_kept = sym (drop-nil (0 - max capacity 1));
    }

    -- After fewer than 2^64 - 2 calls the journal answers from the newest rows of the log, as many
    -- as its capacity: `list` shows the newest of them first, and `get` looks among them only.
    pub list-log_of :
        (capacity : ℕ) (cs : List (Call Value)) (limit : ℕ) (id : Text)
        → length cs + 2 < u64_mod
        → (list (run empty_object (new capacity) cs) limit
            ≡ take (min limit (max capacity 1)) (reverse (log_of empty_object [] cs)))
          × (get (run empty_object (new capacity) cs) id
              ≡ find_row id (
                  drop
                    (length (log_of empty_object [] cs) - max capacity 1)
                    (log_of empty_object [] cs)))
    unfolding list get
    list-log_of capacity cs limit id small =
        let log = log_of empty_object [] cs in
        let rows = max capacity 1 in
        let i = run empty_object (new capacity) cs in
        let k : Keeps rows i log =
          run-Keeps rows cs (new capacity) [] (omega arith) (omega arith) (new-Keeps capacity) in
        (
          ap₂ (λ c rs. take (min limit c) (reverse rs)) k.capacity_kept k.rows_kept
              ∙ ap (take (min limit rows)) (
                  ap reverse (sym (reverse-take-reverse rows log))
                  ∙ reverse-reverse (take rows (reverse log)))
              ∙ take-take (min limit rows) rows (reverse log) (omega arith),
          ap (find_row id) k.rows_kept,
        )
