-- ===== src/Ring/Paging.antt =====
-- What the two readers of a ring return.
use pin_bridge.Common.{
  ℕ, zero, suc, ◌+◌, ◌-◌, ◌≤◌, ◌<◌, ◌≡◌, refl, ◌∙◌, ap, List, [], ◌∷◌, ◌++◌, min, max, arith,
  length, take, drop, get_elem?_of_lt, drop-eq-cons, drop-ge, take-nil, take_all, length-drop,
  append-nil, append_assoc, leb, le→leb, take-min, drop-append, take-append, slice-append,
  length-append, dec_lt, false, returns, run_then, u64_mod, if◌then◌else◌,
}
use pin_bridge.Event.{Event}
use pin_bridge.Ring.{Ring, sub_u64, add_u64, copy, drain_newest_into, page_into}
use pin_bridge.Ring.Holds.{number, length-number, Holds}

module _ (capacity : ℕ) (r : Ring) (log : List Event) (small : length log < u64_mod)
    (v : Holds capacity r log) where
  -- The loop copies a slice of the numbered log, and no index is out of range.
  copy-slice :
      (rounds s : ℕ) (out : List Event)
      → s + rounds ≤ length log
      → length log ≤ s + capacity
      → copy capacity rounds (s + 1) r out ≡ returns (out ++ take rounds (drop s (number 0 log)))
  unfolding copy
  copy-slice zero s out fits near = rw append-nil
  copy-slice (suc rounds) s out fits near =
      let (x, ex) = get_elem?_of_lt (number 0 log) s (omega (arith, length-number 0 log)) in
      let here : sub_u64 (s + 1) 1 ≡ s = omega arith in
      let read = v.window s (omega arith) near ∙ ex in
      let next = copy-slice rounds (s + 1) (out ++ x ∷ []) (omega arith) (omega arith) in
      rw (here, read, drop-eq-cons (number 0 log) s x ex)
        (next ∙ ap returns (append_assoc out (x ∷ []) (take rounds (drop (s + 1) (number 0 log)))))

  page-slice :
      (s limit : ℕ) (out : List Event)
      → length log ≤ s + capacity
      → (if leb (s + 1) r.total
          then copy capacity (min (s + limit) r.total + 1 - (s + 1)) (s + 1) r out
          else returns out)
        ≡ returns (out ++ take limit (drop s (number 0 log)))
  page-slice s limit out near = elim (dec_lt s r.total) [
    | yes some_left ↦
        let left = drop s (number 0 log) in
        let rounds : min (s + limit) r.total + 1 - (s + 1) ≡ min limit (length left) =
          omega (arith, v.total_eq, length-drop s (number 0 log), length-number 0 log) in
        rw (le→leb (s + 1) r.total (omega arith), rounds)
          (copy-slice (min limit (length left)) s out
              (omega (arith, length-drop s (number 0 log), length-number 0 log)) near
            ∙ ap (λ l. returns (out ++ l)) (take-min limit left))
    | no past ↦
        let stop : leb (s + 1) r.total ≡ false = ground arith in
        rw (
          stop,
          drop-ge (number 0 log) s (omega (arith, length-number 0 log, v.total_eq)),
          take-nil limit,
          append-nil,
        )
  ]

-- `page_into` on a ring that holds a log, where the cursor and the length of the log are so far below
-- 2^64 that neither plus `limit + 1` reaches it: it never indexes out of range, reports as missed exactly
-- the events after the cursor that the ring has overwritten, and appends the next `limit` events
-- behind those, oldest first, as many as there are.
pub page_into_lem :
    (capacity : ℕ) (r : Ring) (log : List Event) (after limit : ℕ) (out : List Event)
    → max after (length log) + limit + 1 < u64_mod
    → Holds capacity r log
    → page_into capacity r after limit out
      ≡ returns (
        (length log - capacity) - after,
        out ++ take limit (drop (max after (length log - capacity)) (number 0 log)),
      )
unfolding page_into
page_into_lem capacity r log after limit out small v =
    let s = max after (length log - capacity) in
    let next : add_u64 after 1 ≡ after + 1 = omega arith in
    let first : max (after + 1) (r.total - min r.total capacity + 1) ≡ s + 1 =
      omega (arith, v.total_eq) in
    let last : sub_u64 (add_u64 (s + 1) limit) 1 ≡ s + limit = omega arith in
    let gap : (s + 1) - (after + 1) ≡ (length log - capacity) - after = omega arith in
    rw (next, first, last, gap)
      (ap (λ p. run_then p (λ page. returns ((length log - capacity) - after, page)))
        (page-slice capacity r log (omega arith) v s limit out (omega arith)))

-- `drain_newest_into` on a ring that holds a log appends the newest `newest` events, or as many as
-- are held, oldest first, and never indexes out of range.
pub drain_newest_into_lem :
    (capacity : ℕ) (r : Ring) (log : List Event) (newest : ℕ) (out : List Event)
    → length log < u64_mod
    → Holds capacity r log
    → drain_newest_into capacity r newest out
      ≡ returns (out ++ drop (length log - min capacity newest) (number 0 log))
unfolding drain_newest_into
drain_newest_into_lem capacity r log newest out small v =
    let s = length log - min capacity newest in
    let first : r.total - min (min r.total capacity) newest ≡ s = omega (arith, v.total_eq) in
    let left = drop s (number 0 log) in
    let rounds : r.total + 1 - (s + 1) ≡ length left =
      omega (arith, v.total_eq, length-drop s (number 0 log), length-number 0 log) in
    rw (first, rounds)
      (copy-slice capacity r log small v (length left) s out
          (omega (arith, length-drop s (number 0 log), length-number 0 log)) (omega arith)
        ∙ ap (λ l. returns (out ++ l)) (take_all (length left) left refl).0)

-- The cursor `u64::MAX` wraps: the page is that of the cursor 0, the oldest events that the ring
-- holds, and one event more than that cursor missed is reported.
pub page_into_wraps :
    (capacity : ℕ) (r : Ring) (log : List Event) (limit : ℕ) (out : List Event)
    → length log + limit + 1 < u64_mod
    → Holds capacity r log
    → page_into capacity r (u64_mod - 1) limit out
      ≡ returns (
        (length log - capacity) + 1,
        out ++ take limit (drop (length log - capacity) (number 0 log)),
      )
unfolding page_into
page_into_wraps capacity r log limit out small v =
    let s = length log - capacity in
    let first : max 0 (r.total - min r.total capacity + 1) ≡ s + 1 = omega (arith, v.total_eq) in
    let last : sub_u64 (add_u64 (s + 1) limit) 1 ≡ s + limit = omega arith in
    let gap : (s + 1) - 0 ≡ s + 1 = omega arith in
    rw (first, last, gap)
      (ap (λ p. run_then p (λ page. returns (s + 1, page)))
        (page-slice capacity r log (omega arith) v s limit out (omega arith)))

number-append_list :
    (k : ℕ) (log more : List Event)
    → number k (log ++ more) ≡ number k log ++ number (k + length log) more
number-append_list k [] more = let e : k ≡ k + 0 = omega arith in ap (λ n. number n more) e
number-append_list k (x ∷ log) more =
    let e : suc k + length log ≡ k + suc (length log) = omega arith in
    ap (◌∷◌ (record x { sequence = suc k }))
      (number-append_list (suc k) log more ∙ ap (λ n. number (suc k) log ++ number n more) e)

-- A reader that pages on from the end of a full page: with any pushes in between, and as long as
-- the ring has not run over the cursor, the two pages are one slice of the log, so no event is
-- lost or seen twice.
pub page_into-page_into :
    (capacity : ℕ) (r r' : Ring) (log more : List Event) (after limit limit' : ℕ)
    → length (log ++ more) + limit + limit' + 1 < u64_mod
    → after + limit ≤ length log
    → length (log ++ more) ≤ after + capacity
    → Holds capacity r log
    → Holds capacity r' (log ++ more)
    → (page : List Event) × (page_into capacity r after limit [] ≡ returns (0, page))
      × (page_into capacity r' (after + limit) limit' page
          ≡ returns (0, take (limit + limit') (drop after (number 0 (log ++ more)))))
page_into-page_into capacity r r' log more after limit limit' small full held v v' =
    let size = length-append log more in
    let whole = number 0 (log ++ more) in
    let here : max after (length log - capacity) ≡ after = omega arith in
    let there : max (after + limit) (length (log ++ more) - capacity) ≡ after + limit =
      omega arith in
    let none_missed : (length log - capacity) - after ≡ 0 = omega arith in
    let none_missed' : (length (log ++ more) - capacity) - (after + limit) ≡ 0 = omega arith in
    let same : take limit (drop after (number 0 log)) ≡ take limit (drop after whole) = rw (
      number-append_list 0 log more,
      drop-append after (number 0 log) (number (0 + length log) more)
          (omega (arith, length-number 0 log)),
      take-append limit (drop after (number 0 log)) (number (0 + length log) more)
          (omega (arith, length-drop after (number 0 log), length-number 0 log)),
    ) in
    (
      take limit (drop after (number 0 log)),
      page_into_lem capacity r log after limit [] (omega arith) v ∙ rw (none_missed, here),
      page_into_lem capacity r' (log ++ more) (after + limit) limit'
            (take limit (drop after (number 0 log))) (omega arith) v'
          ∙ rw (
            none_missed',
            there,
            same,
            slice-append whole limit limit' after (after + limit) (limit + limit') refl refl,
          ),
    )
