-- ===== src/Recorder/Scope/Gate.antt =====
-- The gate lets through exactly what the caller of `start_spec` and `extend_ranges` asked for.
use pin_bridge.Common.{
  ℕ, suc, ◌+◌, ◌-◌, ◌^◌, ◌%◌, ◌≤◌, ◌<◌, ◌≡◌, refl, sym, ap, subst, ◌∙◌, List, [], ◌∷◌, ◌++◌, true,
  false, ◌&&◌, not, none, ltb, leb, ◌==◌, if◌then◌else◌, min, max, bit_and, length, get_or, u64_mod,
  arith, Bool-cases, inl, inr, ◌⊎◌, length-append,
}
use pin_bridge.Recorder.Scope.{
  Range, max_record_ranges, max_record_threads, Scope, check_start, store_scope, check_extension,
  fill_slots, publish_ranges, extend, in_record_ranges, scan_threads, thread_allowed,
  armed_in_range, grow_range, instrumentation_range,
}
use pin_bridge.Recorder.Scope.Slots.{
  covers, lists, Stored, scan_ranges-Stored, Stored-of_slots, Stored-same, Stored-append,
  fill_slots-below, fill_slots-Stored, fill_slots-count,
}

-- The statics hold an allowlist of ranges.
pub record Allows (s : Scope) (ranges : List Range) : Type 0 where
  pub stored : Stored s 0 ranges
  pub count : s.range_count ≡ length ranges
  pub few : length ranges ≤ max_record_ranges
  pub any : 0 < length ranges

-- The gate lets an address through if it is in one of the ranges of the allowlist.
in_record_ranges-Allows :
    (s : Scope) (ranges : List Range) (address : ℕ)
    → Allows s ranges
    → in_record_ranges s address ≡ covers ranges address
unfolding in_record_ranges
in_record_ranges-Allows s ranges address v =
    let some_ranges : s.range_count == 0 ≡ false = ground (arith, v.count, v.any) in
    let rounds : min s.range_count max_record_ranges ≡ length ranges =
      omega (arith, v.count, v.few) in
    rw (some_ranges, rounds) (scan_ranges-Stored s address 0 ranges v.stored)

check_start-none :
    (s : Scope) (mask : ℕ) (ranges : List Range) (threads : List ℕ) (path_len : ℕ)
    → check_start s mask ranges threads path_len ≡ none
    → (0 < length ranges)
      × (length ranges ≤ max_record_ranges)
      × (length threads ≤ max_record_threads)
unfolding check_start
check_start-none s mask ranges threads path_len h = ground arith

-- After `start_spec` the statics hold what it was given.
pub store_scope-Allows :
    (s : Scope) (mask : ℕ) (ranges : List Range) (threads : List ℕ)
    → 0 < length ranges
    → length ranges ≤ max_record_ranges
    → Allows (store_scope s mask ranges threads) ranges
unfolding store_scope
store_scope-Allows s mask ranges threads some_ranges few = record {
  stored = Stored-of_slots (store_scope s mask ranges threads) 0 ranges (λ i lt.
      let e : 0 + i ≡ i = omega arith in
      let inside : ltb i max_record_ranges ≡ true = ground arith in rw (e, inside) (refl, refl));
  count = refl;
  few = few;
  any = some_ranges;
}

scan_threads-lists :
    (s : Scope) (thread_id index : ℕ) (ids : List ℕ)
    → ((i : ℕ) → i < length ids → s.threads (index + i) ≡ get_or ids i 0)
    → scan_threads s thread_id (length ids) index ≡ lists ids thread_id
unfolding scan_threads
scan_threads-lists s thread_id index [] h = refl
scan_threads-lists s thread_id index (t ∷ ids) h =
    let here : index + 0 ≡ index = omega arith in
    let first : s.threads index ≡ t = rw here at (h 0 (omega arith)) in
    let rest = scan_threads-lists s thread_id (index + 1) ids (λ i lt.
      let next : index + suc i ≡ index + 1 + i = omega arith in
      rw next at (h (suc i) (omega arith))) in
    rw (first, rest) refl

thread_allowed-store_scope :
    (s : Scope) (mask thread_id : ℕ) (ranges : List Range) (threads : List ℕ)
    → length threads ≤ max_record_threads
    → thread_allowed (store_scope s mask ranges threads) thread_id
      ≡ (if length threads == 0 then true else lists threads thread_id)
unfolding thread_allowed store_scope
thread_allowed-store_scope s mask thread_id ranges threads few =
    let rounds : min (length threads) max_record_threads ≡ length threads = omega arith in
    rw rounds (
      ap (λ b. if length threads == 0 then true else b)
        (scan_threads-lists (store_scope s mask ranges threads) thread_id 0 threads (λ i lt.
          let e : 0 + i ≡ i = omega arith in
          let inside : ltb i max_record_threads ≡ true = ground arith in rw (e, inside) refl)))

store_scope_fields :
    (s : Scope) (mask : ℕ) (ranges : List Range) (threads : List ℕ)
    → ((store_scope s mask ranges threads).armed ≡ true)
      × ((store_scope s mask ranges threads).kinds ≡ mask)
unfolding store_scope
store_scope_fields s mask ranges threads = (refl, refl)

-- Where the checks of `start_spec` pass, and its statics are stored: a callback gets through the
-- gate exactly if the mask has its kind, one of the ranges contains its address, and the list of
-- threads is empty or has its thread.
pub armed_in_range-store_scope :
    (s : Scope) (mask : ℕ) (ranges : List Range) (threads : List ℕ)
    (path_len address thread_id kind : ℕ)
    → check_start s mask ranges threads path_len ≡ none
    → armed_in_range (store_scope s mask ranges threads) address thread_id kind ≡ (
        not (bit_and mask (2 ^ (kind % 32)) == 0)
        && covers ranges address
        && (if length threads == 0 then true else lists threads thread_id))
unfolding armed_in_range
armed_in_range-store_scope s mask ranges threads path_len address thread_id kind ok =
    let (some_ranges, few, few_threads) = check_start-none s mask ranges threads path_len ok in
    let (live, mask_kept) = store_scope_fields s mask ranges threads in
    rw
      (
        live,
        mask_kept,
        in_record_ranges-Allows (store_scope s mask ranges threads) ranges address
            (store_scope-Allows s mask ranges threads some_ranges few),
        thread_allowed-store_scope s mask thread_id ranges threads few_threads,
      )
      refl

check_extension-none :
    (s : Scope) (ranges : List Range)
    → check_extension s ranges ≡ none
    → s.range_count + length ranges ≤ max_record_ranges
unfolding check_extension
check_extension-none s ranges h = ground arith

module _ (s : Scope) (old ranges : List Range) (v : Allows s old) where
  filled : Scope
  filled = fill_slots s s.range_count ranges

  filled-Allows : Allows filled old
  unfolding filled
  filled-Allows = record {
    stored =
        Stored-same s filled 0 old
          (λ i lt. fill_slots-below s s.range_count ranges i (omega (arith, v.count))) v.stored;
    count = fill_slots-count s s.range_count ranges ∙ v.count;
    few = v.few;
    any = v.any;
  }

  extend-Allows :
      s.range_count + length ranges ≤ max_record_ranges → Allows (extend s ranges) (old ++ ranges)
  unfolding filled extend publish_ranges
  extend-Allows fits =
      let here : s.range_count ≡ 0 + length old = omega (arith, v.count) in
      let fresh : Stored filled (0 + length old) ranges =
        subst (λ j. Stored filled j ranges) here (fill_slots-Stored s s.range_count ranges) in
      record {
        stored =
            Stored-append (extend s ranges) 0 old ranges
              (Stored-same filled (extend s ranges) 0 old (λ i lt. (refl, refl))
                filled-Allows.stored)
              (Stored-same filled (extend s ranges) (0 + length old) ranges (λ i lt. (refl, refl))
                fresh);
        count =
            omega
              (arith, length-append old ranges, fill_slots-count s s.range_count ranges, v.count);
        few = omega (arith, length-append old ranges, v.count);
        any = omega (arith, length-append old ranges, v.any);
      }

-- An extension that passes the checks, of a session with an allowlist: while the slots are being
-- filled the gate answers as before, and once the count is stored it lets through the addresses in
-- the old and in the new ranges.
pub in_record_ranges-extend :
    (s : Scope) (old ranges : List Range) (address : ℕ)
    → Allows s old
    → check_extension s ranges ≡ none
    → (in_record_ranges (fill_slots s s.range_count ranges) address ≡ covers old address)
      × (in_record_ranges (extend s ranges) address ≡ covers (old ++ ranges) address)
      × Allows (extend s ranges) (old ++ ranges)
unfolding filled
in_record_ranges-extend s old ranges address v ok =
    let after = extend-Allows s old ranges v (check_extension-none s ranges ok) in
    (
      in_record_ranges-Allows (filled s old ranges v) old address (filled-Allows s old ranges v),
      in_record_ranges-Allows (extend s ranges) (old ++ ranges) address after,
      after,
    )

grow_range-covers :
    (s : Scope) (index : ℕ) (ranges : List Range) (lo hi address : ℕ)
    → Stored s index ranges
    → ((lo ≤ address) × (address < hi)) ⊎ (covers ranges address ≡ true)
    → ((grow_range s (length ranges) index (lo, hi)).0 ≤ address)
      × (address < (grow_range s (length ranges) index (lo, hi)).1)
unfolding grow_range
grow_range-covers s index [] lo hi address h (inl inside) = inside
grow_range-covers s index [] lo hi address h (inr c) = cc
grow_range-covers s index ((a, b) ∷ ranges) lo hi address h before =
    grow_range-covers s (index + 1) ranges (min lo (s.range_lo index)) (max hi (s.range_hi index))
      address h.2
      (elim before [
        | inl inside ↦ inl (omega (arith, inside.0), omega (arith, inside.1))
        | inr c ↦ elim (Bool-cases (leb a address && ltb address b)) [
          | inl here ↦
              let low : a ≤ address = ground arith in
              let high : address < b = ground arith in inl (omega (arith, h.0), omega (arith, h.1))
          | inr away ↦ inr (rw away at c)
        ]
      ])

-- In a session with an allowlist, the range for instrumentation contains every address that the
-- gate lets through, so no instruction that is to be recorded is left without its callback.
pub instrumentation_range-covers :
    (s : Scope) (ranges : List Range) (address : ℕ)
    → Allows s ranges
    → in_record_ranges s address ≡ true
    → ((instrumentation_range s).0 ≤ address) × (address < (instrumentation_range s).1)
unfolding instrumentation_range
instrumentation_range-covers s ranges address v inside =
    let some_ranges : s.range_count == 0 ≡ false = ground (arith, v.count, v.any) in
    let rounds : min s.range_count max_record_ranges ≡ length ranges =
      omega (arith, v.count, v.few) in
    rw (some_ranges, rounds)
      (grow_range-covers s 0 ranges (u64_mod - 1) 0 address v.stored
        (inr (sym (in_record_ranges-Allows s ranges address v) ∙ inside)))
