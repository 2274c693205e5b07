-- ===== src/Trace/Query/Matching.antt =====
-- The conditions of the SQL queries, as conditions on the records that were imported.
use pin_bridge.Common.{
  ℕ, zero, suc, ◌+◌, ◌^◌, ◌≤◌, ◌<◌, ◌≡◌, refl, sym, List, [], ◌∷◌, map, Bool, true, false, ◌&&◌,
  ◌||◌, inl, inr, Bool-cases, arith, All, All-zip, All-imp, subst, All-take, All-drop, keep,
  keep-map, length, length-take, length-drop, take, drop, drop-drop, get_or, leb, ◌==◌, ok, u32_mod,
  lt→ltb,
}
use pin_bridge.Wire.Bytes.{le_at, AreBytes, le_bytes-from_le_bytes}
use pin_bridge.Trace.{Record}
use pin_bridge.Trace.Signed.{
  ℤ, pos, equals, as_i64, as_u64, as_u64-as_i64, equals-as_i64, equals-pos,
}
use pin_bridge.Trace.Store.{
  MemoryRow, Clause, matches, indexed, kind_is, address_is, thread_is, sequence_is, memory_is,
}
use pin_bridge.Trace.Import.{words_at, parse_record, event_row, memory_row, is_memory}
use pin_bridge.Trace.Import.Whole.{IsWhole}
use pin_bridge.Trace.Import.Rows.{Rising, memory_rows}
use pin_bridge.Trace.Query.{
  Predicate, kind, address, thread, sequence, memory, database_filter, row_to_record,
}

-- What a predicate asks of a record.
unfoldable pub wanted : Predicate → Record → Bool
wanted (kind k) r = r.kind == k
wanted (address a) r = r.address == a
wanted (thread t) r = r.thread_id == t
wanted (sequence s) r = r.sequence == s
wanted (memory a) r = is_memory r.kind && (get_or r.args 0 0 == a)

-- The key has its Rust type, and SQLite's range where the query checks it.
unfoldable pub InWidth : Predicate → Type 0
InWidth (kind k) = k < 2 ^ 32
InWidth (address a) = a < 2 ^ 64
InWidth (thread t) = t < 2 ^ 32
InWidth (sequence s) = s < 2 ^ 63
InWidth (memory a) = a < 2 ^ 64

-- One record's bytes.
abbrev pub IsRecord : List ℕ → Type 0
IsRecord c = IsWhole c × AreBytes c

le_at-lt : (w i : ℕ) (c : List ℕ) → IsRecord c → i + w ≤ 88 → le_at w c i < 256 ^ w
unfolding le_at
le_at-lt w i c (whole, are) h =
    (le_bytes-from_le_bytes w (take w (drop i c))
      (omega (arith, length-take w (drop i c), length-drop i c, whole))
      (All-take (λ b. b < 256) w (drop i c) (All-drop (λ b. b < 256) i c are))).1

words_at-drop : (n k i j : ℕ) (c : List ℕ) → j ≡ k + i → words_at n (drop k c) i ≡ words_at n c j
unfolding words_at le_at
words_at-drop zero k i j c e = refl
words_at-drop (suc n) k i j c e =
    rw (drop-drop c k i j e, words_at-drop n k (i + 8) (j + 8) c (omega arith)) refl

record Fields (c : List ℕ) : Type 0 where
  kind_lt : (parse_record c).kind < 2 ^ 32
  thread_lt : (parse_record c).thread_id < 2 ^ 32
  address_lt : (parse_record c).address < 2 ^ 64
  memory_lt : get_or (parse_record c).args 0 0 < 2 ^ 64

parse_record-Fields : (c : List ℕ) → IsRecord c → Fields c
unfolding parse_record
parse_record-Fields c h = record {
  kind_lt = le_at-lt 4 8 c h (omega arith);
  thread_lt = le_at-lt 4 12 c h (omega arith);
  address_lt = le_at-lt 8 16 c h (omega arith);
  memory_lt = le_at-lt 8 24 c h (omega arith);
}

-- A row that the import has written is read back as the record.
pub row_to_record-event_row :
    (c : List ℕ)
    → IsRecord c
    → (parse_record c).sequence < 2 ^ 63
    → row_to_record (event_row c) ≡ ok (parse_record c)
unfolding row_to_record event_row as_u64
row_to_record-event_row c h small =
    let v = parse_record-Fields c h in
    let payload : length (drop 24 c) ≡ 64 = omega (arith, length-drop 24 c, h.0) in
    rw
      (
        payload,
        lt→ltb (parse_record c).kind u32_mod v.kind_lt,
        lt→ltb (parse_record c).thread_id u32_mod v.thread_lt,
        words_at-drop 8 24 0 24 c refl,
        as_u64-as_i64 (parse_record c).address v.address_lt,
      )
      refl

pub Rising-above :
    (lo : ℕ) (cs : List (List ℕ)) → Rising lo cs → All (λ c. lo ≤ (parse_record c).sequence) cs
Rising-above lo [] r = tt
Rising-above lo (c ∷ cs) r = (
  r.0,
  All-imp (λ c'. suc (parse_record c).sequence ≤ (parse_record c').sequence)
      (λ c'. lo ≤ (parse_record c').sequence) cs (λ c' h. omega (arith, r.0))
      (Rising-above (suc (parse_record c).sequence) cs r.2),
)

memory_rows-cons_true :
    (c : List ℕ) (cs : List (List ℕ))
    → is_memory (parse_record c).kind ≡ true
    → memory_rows (c ∷ cs) ≡ memory_row (parse_record c) ∷ memory_rows cs
unfolding memory_rows
memory_rows-cons_true c cs h = rw h refl

memory_rows-cons_false :
    (c : List ℕ) (cs : List (List ℕ))
    → is_memory (parse_record c).kind ≡ false
    → memory_rows (c ∷ cs) ≡ memory_rows cs
unfolding memory_rows
memory_rows-cons_false c cs h = rw h refl

indexed_cons :
    (r : Record) (ms : List MemoryRow) (n a : ℕ)
    → get_or r.args 0 0 < 2 ^ 64
    → a < 2 ^ 64
    → indexed (memory_row r ∷ ms) (pos n) (as_i64 a)
      ≡ (((r.sequence == n) && (get_or r.args 0 0 == a)) || indexed ms (pos n) (as_i64 a))
unfolding memory_row equals
indexed_cons r ms n a hr ha = rw (equals-as_i64 (get_or r.args 0 0) a hr ha) refl

-- The sequence number of no later record is in the index of the earlier ones, and the other way round.
not_indexed :
    (cs : List (List ℕ)) (lo n a : ℕ)
    → All IsRecord cs
    → Rising lo cs
    → n < lo
    → a < 2 ^ 64
    → indexed (memory_rows cs) (pos n) (as_i64 a) ≡ false
unfolding memory_rows
not_indexed [] lo n a are rising h ha = refl
not_indexed (c ∷ cs) lo n a are rising h ha =
    let v = parse_record-Fields c are.0 in
    let rest =
      not_indexed cs (suc (parse_record c).sequence) n a are.1 rising.2 (omega (arith, rising.0))
        ha in
    let other : ((parse_record c).sequence == n) ≡ false = ground (arith, rising.0) in
    elim (Bool-cases (is_memory (parse_record c).kind)) [
      | inl m ↦
          rw
            (
              memory_rows-cons_true c cs m,
              indexed_cons (parse_record c) (memory_rows cs) n a v.memory_lt ha,
              other,
              rest,
            )
            refl
      | inr m ↦ rw (memory_rows-cons_false c cs m) rest
    ]

abbrev Finds : List (List ℕ) → ℕ → List MemoryRow → Type 0
Finds cs a ms =
    All
      (λ c.
        indexed ms (pos (parse_record c).sequence) (as_i64 a) ≡ wanted (memory a) (parse_record c))
      cs

-- The join with the index of the whole file finds the records that access the address.
joined :
    (cs : List (List ℕ)) (lo a : ℕ)
    → All IsRecord cs
    → Rising lo cs
    → a < 2 ^ 64
    → Finds cs a (memory_rows cs)
unfolding wanted
joined [] lo a are rising ha = tt
joined (c ∷ cs) lo a are rising ha =
    let v = parse_record-Fields c are.0 in
    let n = (parse_record c).sequence in
    let rest = not_indexed cs (suc n) n a are.1 rising.2 (omega arith) ha in
    let self : (n == n) ≡ true = ground arith in
    let later = joined cs (suc n) a are.1 rising.2 ha in
    let above = Rising-above (suc n) cs rising.2 in
    elim (Bool-cases (is_memory (parse_record c).kind)) [
      | inl m ↦ subst (Finds (c ∷ cs) a) (sym (memory_rows-cons_true c cs m)) (
        rw (indexed_cons (parse_record c) (memory_rows cs) n a v.memory_lt ha, self, rest, m)
            (ground arith),
        All-zip _ _ _ cs
            (λ c' up e.
              let other : (n == (parse_record c').sequence) ≡ false = ground (arith, up) in
              rw
                (
                  indexed_cons (parse_record c) (memory_rows cs) (parse_record c').sequence a
                      v.memory_lt ha,
                  other,
                )
                e)
            above later,
      )
      | inr m ↦
          subst (Finds (c ∷ cs) a) (sym (memory_rows-cons_false c cs m)) (rw (rest, m) refl, later)
    ]

-- The rows that a query selects are those of the wanted records.
pub matches-wanted :
    (predicate : Predicate) (cs : List (List ℕ))
    → InWidth predicate
    → All IsRecord cs
    → Rising 0 cs
    → (f : Clause × ℤ) × (database_filter predicate ≡ ok f)
      × (keep (matches (memory_rows cs) f.0 f.1) (map event_row cs)
          ≡ map event_row (keep (λ c. wanted predicate (parse_record c)) cs))
unfolding matches wanted database_filter InWidth event_row equals
matches-wanted (kind k) cs h are rising = (
  (kind_is, as_i64 k),
  refl,
  keep-map event_row _ _ cs (
      All-imp IsRecord _ cs (λ c r. rw (equals-pos (parse_record c).kind k (omega arith)) refl)
        are),
)
matches-wanted (address a) cs h are rising = (
  (address_is, as_i64 a),
  refl,
  keep-map event_row _ _ cs (
      All-imp IsRecord _ cs
        (λ c r.
          rw (equals-as_i64 (parse_record c).address a (parse_record-Fields c r).address_lt h) refl)
        are),
)
matches-wanted (thread t) cs h are rising = (
  (thread_is, as_i64 t),
  refl,
  keep-map event_row _ _ cs (
      All-imp IsRecord _ cs (λ c r. rw (equals-pos (parse_record c).thread_id t (omega arith)) refl)
        are),
)
matches-wanted (sequence s) cs h are rising =
    let fits : leb (2 ^ 63) s ≡ false = ground arith in
    (
      (sequence_is, pos s),
      rw (database_filter, fits) refl,
      keep-map event_row _ _ cs (All-imp IsRecord _ cs (λ c r. refl) are),
    )
matches-wanted (memory a) cs h are rising =
    ((memory_is, as_i64 a), refl, keep-map event_row _ _ cs (joined cs 0 a are rising h))
