-- ===== src/CodeFetch/Loop.antt =====
-- The loop of `on_fetch` reads the overlaid memory.
use pin_bridge.Common.{
  ℕ, zero, suc, ◌+◌, ◌-◌, ◌≤◌, ◌<◌, ◌≡◌, refl, sym, ap, ◌∙◌, List, [], ◌∷◌, ◌++◌, append-nil,
  append_assoc, Bool, true, false, not, ◌&&◌, ◌⊎◌, inl, inr, Option, none, some, arith, length,
  length-append, min, get_or, get_elem?, take, drop, length-take, length-drop, ltb, leb, by_cases,
  u64_mod, dec_lt, lt→ltb, le→ltb,
}
use pin_bridge.CodeFetch.{
  NativeSegment, Search, containing, next, no_segment, containing_or_next, gap_to, fetch_original,
  fetch_round, fetch_loop, on_fetch,
}
use pin_bridge.CodeFetch.Overlay.{
  readable, overlay, Ordered, readable-agree, readable-split, readable-bytes,
}

module _ (memory : ℕ → Option ℕ) where
  -- Addresses before the first segment, or beyond the last, hold the program's bytes.
  overlay-below :
      (ss : List NativeSegment) (lo x : ℕ) → Ordered lo ss → x < lo → overlay ss memory x ≡ memory x
  unfolding overlay
  overlay-below [] lo x o h = refl
  overlay-below (s ∷ ss) lo x (low, wide, size, top, rest) h =
      let out : (leb s.start x && ltb x s.end) ≡ false = ground arith in
      rw out (overlay-below ss s.end x rest (omega arith))

  overlay-above :
      (ss : List NativeSegment) (lo x : ℕ)
      → Ordered lo ss
      → u64_mod ≤ x
      → overlay ss memory x ≡ memory x
  unfolding overlay
  overlay-above [] lo x o h = refl
  overlay-above (s ∷ ss) lo x (low, wide, size, top, rest) h =
      let out : (leb s.start x && ltb x s.end) ≡ false = ground arith in
      rw out (overlay-above ss s.end x rest h)

  -- What the search finds in segments from index `i` on.
  Finds : List NativeSegment → ℕ → ℕ → ℕ → Search → Type 0
  Finds ss lo a i (containing k) =
      (j : ℕ) × (s : NativeSegment) × (k ≡ i + j)
      × (get_or ss j no_segment ≡ s)
      × (lo ≤ s.start)
      × (s.start ≤ a)
      × (a < s.end)
      × (s.end ≡ s.start + length s.bytes)
      × ((x : ℕ) → s.start ≤ x → x < s.end → overlay ss memory x ≡ get_elem? s.bytes (x - s.start))
  Finds ss lo a i (next k) =
      (j : ℕ) × (k ≡ i + j)
      × ((r : ℕ) → 0 < r → 0 < gap_to (get_elem? ss j) a r)
      × ((r : ℕ) → gap_to (get_elem? ss j) a r ≤ r)
      × ((r x : ℕ) → a ≤ x → x < a + gap_to (get_elem? ss j) a r → overlay ss memory x ≡ memory x)

  past :
      (s : NativeSegment) (ss : List NativeSegment) (lo a i : ℕ) (r : Search)
      → s.end ≤ a
      → lo ≤ s.end
      → Finds ss s.end a (suc i) r
      → Finds (s ∷ ss) lo a i r
  unfolding Finds overlay
  past s ss lo a i (containing k) h le (j, t, e, found, low, from, to, size, own) = (
    suc j,
    t,
    omega arith,
    found,
    omega arith,
    from,
    to,
    size,
    λ x u v. let out : (leb s.start x && ltb x s.end) ≡ false = ground arith in rw out (own x u v),
  )
  past s ss lo a i (next k) h le (j, e, up, down, same) = (
    suc j,
    omega arith,
    up,
    down,
    λ r x u v.
        let out : (leb s.start x && ltb x s.end) ≡ false = ground arith in rw out (same r x u v),
  )

  search-Finds :
      (ss : List NativeSegment) (lo a i : ℕ)
      → Ordered lo ss
      → Finds ss lo a i (containing_or_next ss a i)
  unfolding containing_or_next Finds gap_to overlay
  search-Finds [] lo a i o = (0, omega arith, (λ r h. h), (λ r. omega arith), (λ r x u v. refl))
  search-Finds (s ∷ ss) lo a i (low, wide, size, top, rest) =
      by_cases (Finds (s ∷ ss) lo a i) (leb s.end a) _ _
        (λ q.
          past s ss lo a i (containing_or_next ss a (suc i)) (ground arith) (omega arith)
            (search-Finds ss s.end a (suc i) rest))
        (λ q.
          by_cases (Finds (s ∷ ss) lo a i) (ltb a s.start) _ _
            (λ u. (
              0,
              omega arith,
              (λ r h. ground arith),
              (λ r. omega arith),
              λ r x v w.
                  let out : (leb s.start x && ltb x s.end) ≡ false = ground arith in
                  rw out (overlay-below ss s.end x rest (ground arith)),
            ))
            (λ u. (
              0,
              s,
              omega arith,
              refl,
              low,
              ground arith,
              ground arith,
              size,
              λ x v w.
                  let within : (leb s.start x && ltb x s.end) ≡ true = ground arith in
                  rw within refl,
            )))

-- Pin's helper gives the readable bytes of the program's code from an address on.
abbrev pub Serves : (ℕ → ℕ → Option (List ℕ)) → (ℕ → Option ℕ) → Type 0
Serves fetch memory =
    (address size : ℕ) → fetch_original fetch address size ≡ readable memory address size

module _ (fetch : ℕ → ℕ → Option (List ℕ)) (memory : ℕ → Option ℕ) (serves : Serves fetch memory)
    (segments : List NativeSegment) (ordered : Ordered 0 segments) where
  held : ℕ → Option ℕ
  held = overlay segments memory

  -- A round that goes on has read one byte or more; one that does not has read all there is.
  Round : ℕ → ℕ → List ℕ × Bool → Type 0
  Round cursor remaining r =
      ((n : ℕ) × (r.1 ≡ true)
        × (0 < n)
        × (n ≤ remaining)
        × (length r.0 ≡ n)
        × (r.0 ≡ readable held cursor n))
      ⊎ ((r.1 ≡ false) × (r.0 ≡ readable held cursor remaining))

  found-Round :
      (cursor remaining : ℕ) (r : Search)
      → 0 < remaining
      → Finds memory segments 0 cursor 0 r
      → Round cursor remaining (elim r [
        | containing index ↦
            let segment = get_or segments index no_segment in
            let offset = cursor - segment.start in
            (take (min (length segment.bytes - offset) remaining) (drop offset segment.bytes), true)
        | next index ↦
            let gap = gap_to (get_elem? segments index) cursor remaining in
            let bytes = fetch_original fetch cursor gap in (bytes, not (ltb (length bytes) gap))
      ])
  unfolding Finds Round held
  found-Round cursor remaining (containing k) some_left (j, s, e, found, low, from, to, size, own) =
      let here : k ≡ j = omega arith in
      let at_j : get_or segments k no_segment ≡ s =
        ap (λ i. get_or segments i no_segment) here ∙ found in
      let offset = cursor - s.start in
      let n = min (length s.bytes - offset) remaining in
      rw at_j (
        inl (
          n,
          refl,
          omega arith,
          omega arith,
          omega (arith, length-take n (drop offset s.bytes), length-drop offset s.bytes),
          sym (
              readable-bytes held cursor s.bytes offset n
                (λ x u v.
                  let place : x - s.start ≡ x - cursor + offset = omega arith in
                  own x (omega arith) (omega arith) ∙ ap (get_elem? s.bytes) place)
                (omega arith)),
        ))
  found-Round cursor remaining (next k) some_left (j, e, up, down, same) =
      let here : k ≡ j = omega arith in
      let gap = gap_to (get_elem? segments j) cursor remaining in
      let got : fetch_original fetch cursor gap ≡ readable held cursor gap =
        serves cursor gap
        ∙ sym (readable-agree held memory cursor gap (λ x u v. same remaining x u v)) in
      let some_gap : 0 < gap = up remaining some_left in
      let in_all : gap ≤ remaining = down remaining in
      let parts : gap + (remaining - gap) ≡ remaining = omega arith in
      rw (here, got)
        (elim (readable-split held cursor gap (remaining - gap)) [
          | inl (full, more) ↦
              let goes : ltb (length (readable held cursor gap)) gap ≡ false =
                le→ltb (length (readable held cursor gap)) gap (omega (arith, full)) in
              inl (gap, rw goes refl, some_gap, in_all, full, refl)
          | inr (short, all) ↦
              let stops : ltb (length (readable held cursor gap)) gap ≡ true =
                lt→ltb (length (readable held cursor gap)) gap short in
              inr (rw stops refl, sym all ∙ ap (readable held cursor) parts)
        ])

  fetch_round-Round :
      (cursor remaining : ℕ)
      → 0 < remaining
      → Round cursor remaining (fetch_round fetch segments cursor remaining)
  unfolding fetch_round
  fetch_round-Round cursor remaining some_left =
      found-Round cursor remaining (containing_or_next segments cursor 0) some_left
        (search-Finds memory segments 0 cursor 0 ordered)

  -- No address from 2^64 on holds a byte.
  module _ (bounded : (x : ℕ) → u64_mod ≤ x → memory x ≡ none) where
    held-bounded : (x : ℕ) → u64_mod ≤ x → held x ≡ none
    unfolding held
    held-bounded x h = overlay-above memory segments 0 x ordered h ∙ bounded x h

    readable-end : (x n : ℕ) → u64_mod ≤ x → readable held x n ≡ []
    unfolding readable
    readable-end x zero h = refl
    readable-end x (suc n) h = rw (held-bounded x h) refl

    fetch_loop-readable :
        (fuel address requested : ℕ) (copied : List ℕ)
        → requested ≤ length copied + fuel
        → length copied ≤ requested
        → fetch_loop fetch segments fuel address requested copied
          ≡ copied ++ readable held (address + length copied) (requested - length copied)
    unfolding fetch_loop readable Round
    fetch_loop-readable zero address requested copied enough small =
        let done : requested - length copied ≡ 0 = omega arith in rw done (sym (append-nil copied))
    fetch_loop-readable (suc fuel) address requested copied enough small =
        let cursor = address + length copied in
        let remaining = requested - length copied in
        elim (dec_lt (length copied) requested) [
          | no h ↦
              let done : requested - length copied ≡ 0 = omega arith in
              rw (fetch_loop, le→ltb (length copied) requested (omega arith), done)
                (sym (append-nil copied))
          | yes h ↦ elim (dec_lt cursor u64_mod) [
            | no top ↦
                rw
                  (
                    fetch_loop,
                    lt→ltb (length copied) requested h,
                    le→ltb cursor u64_mod (omega arith),
                    readable-end cursor remaining (omega arith),
                  )
                  (sym (append-nil copied))
            | yes inside ↦ elim (fetch_round-Round cursor remaining (omega arith)) [
              | inr (stop, all) ↦
                  rw
                    (
                      fetch_loop,
                      lt→ltb (length copied) requested h,
                      lt→ltb cursor u64_mod inside,
                      stop,
                      all,
                    )
                    refl
              | inl (n, go, some_read, few, len, bytes) ↦
                  let read = (fetch_round fetch segments cursor remaining).0 in
                  let grown : length (copied ++ read) ≡ length copied + n =
                    omega (arith, length-append copied read, len) in
                  let rest =
                    fetch_loop-readable fuel address requested (copied ++ read) (omega arith)
                      (omega arith) in
                  let on : address + length (copied ++ read) ≡ cursor + n = omega arith in
                  let left : requested - length (copied ++ read) ≡ remaining - n = omega arith in
                  let parts : n + (remaining - n) ≡ remaining = omega arith in
                  let all : readable held cursor remaining
                      ≡ read ++ readable held (cursor + n) (remaining - n) =
                    elim (readable-split held cursor n (remaining - n)) [
                      | inl (full, more) ↦
                          ap (readable held cursor) (sym parts)
                          ∙ more
                          ∙ ap (λ xs. xs ++ readable held (cursor + n) (remaining - n)) (sym bytes)
                      | inr (short, stop) ↦ absurd (omega (arith, ap length bytes, len, short))
                    ] in
                  rw
                    (
                      fetch_loop,
                      lt→ltb (length copied) requested h,
                      lt→ltb cursor u64_mod inside,
                      go,
                      rest,
                      on,
                      left,
                      all,
                    )
                    (append_assoc copied read _)
            ]
          ]
        ]

    -- `on_fetch` fills the buffer with what a byte-by-byte read of the overlaid memory gives: the
    -- segment's byte where a segment has the address, the program's byte elsewhere, up to the size
    -- or the first address without a byte. Its loop ends.
    pub on_fetch-readable :
        (address size : ℕ)
        → on_fetch fetch (some segments) false address size
          ≡ readable (overlay segments memory) address size
    unfolding on_fetch held readable
    on_fetch-readable address zero = refl
    on_fetch-readable address (suc n) =
        let e : leb (suc n) 0 ≡ false = ground arith in
        let here : address + 0 ≡ address = omega arith in
        let all : suc n - 0 ≡ suc n = omega arith in
        rw e (
          fetch_loop-readable (suc n) address (suc n) [] (omega arith) (omega arith)
          ∙ rw (here, all) refl)
