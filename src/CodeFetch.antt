-- ===== src/CodeFetch.antt =====
-- bindings/rust/pinbridge-agent/src/scripting/code_fetch.rs: instruction bytes that scripts provide,
-- served to Pin's fetches.
pub mod Overlay
pub mod Loop
pub mod Policy
pub mod Readers
use pin_bridge.Common.{
  ℕ, zero, suc, ◌+◌, ◌-◌, ◌*◌, ◌^◌, List, [], ◌∷◌, ◌++◌, map, Bool, true, false, not, ◌&&◌, ◌||◌,
  Option, none, some, min, length, get_elem?, get_or, take, drop, concat, ltb, leb, if◌then◌else◌,
  Result, ok, err, try_result, u64_mod,
}

abbrev pub max_segments : ℕ
max_segments = 64

abbrev pub max_total_bytes : ℕ
max_total_bytes = 1024 * 1024

pub record Segment : Type 0 where
  pub start : ℕ
  pub bytes : List ℕ

pub record NativeSegment : Type 0 where
  pub start : ℕ
  pub end : ℕ
  pub bytes : List ℕ

-- `Result<usize, usize>` of the search: the segment with the address, or the next one.
pub data Search : Type 0 where
  containing next : ℕ → Search

-- `binary_search_by` on segments in order answers with the first that does not end before the
-- address.
unfoldable pub containing_or_next : List NativeSegment → ℕ → ℕ → Search
containing_or_next [] address index = next index
containing_or_next (s ∷ ss) address index =
    let later = containing_or_next ss address (suc index) in
    if leb s.end address
    then later
    else if ltb address s.start
    then next index
    else containing index

abbrev pub no_segment : NativeSegment
no_segment = record { start = 0; end = 0; bytes = [] }

-- The bytes up to the next segment, or all that remain.
unfoldable pub gap_to : Option NativeSegment → ℕ → ℕ → ℕ
gap_to none cursor remaining = remaining
gap_to (some s) cursor remaining = min (s.start - cursor) remaining

-- `pb_pin_fetch_original_code` gives bytes or fails; what it says beyond the size is cut off.
unfoldable pub fetch_original : (ℕ → ℕ → Option (List ℕ)) → ℕ → ℕ → List ℕ
fetch_original fetch address size = elim (fetch address size) [
  | none ↦ []
  | some bytes ↦ take size bytes
]

module _ (fetch : ℕ → ℕ → Option (List ℕ)) (segments : List NativeSegment) where
  -- One round of the loop of `on_fetch`: the bytes that it adds, and whether the loop goes on.
  unfoldable pub fetch_round : ℕ → ℕ → List ℕ × Bool
  unfolding containing_or_next gap_to fetch_original
  fetch_round cursor remaining = elim (containing_or_next segments cursor 0) [
    | containing index ↦
        let segment = get_or segments index no_segment in
        let offset = cursor - segment.start in
        (take (min (length segment.bytes - offset) remaining) (drop offset segment.bytes), true)
    | next index ↦
        let gap = gap_to (get_elem? segments index) cursor remaining in
        let bytes = fetch_original fetch cursor gap in (bytes, not (ltb (length bytes) gap))
  ]

  -- The loop; a round that goes on adds a byte or more, so fuel for the bytes requested is enough.
  unfoldable pub fetch_loop : ℕ → ℕ → ℕ → List ℕ → List ℕ
  fetch_loop zero address requested copied = copied
  fetch_loop (suc fuel) address requested copied = elim (ltb (length copied) requested) [
    | false ↦ copied
    | true ↦ elim (ltb (address + length copied) u64_mod) [
      | false ↦ copied
      | true ↦
          let (bytes, more) = fetch_round (address + length copied) (requested - length copied) in
          elim more [
            | false ↦ copied ++ bytes
            | true ↦ fetch_loop fuel address requested (copied ++ bytes)
          ]
    ]
  ]

-- The buffer after the callback; without a policy the request goes to Pin. The reader's guard is
-- the subject of `Readers`.
unfoldable pub on_fetch :
    (ℕ → ℕ → Option (List ℕ)) → Option (List NativeSegment) → Bool → ℕ → ℕ → List ℕ
unfolding fetch_loop fetch_original
on_fetch fetch policy null_buffer address size =
    if null_buffer || leb size 0 then [] else elim policy [
      | none ↦ fetch_original fetch address size
      | some segments ↦ fetch_loop fetch segments size address size []
    ]

-- The errors of `publish`.
pub data PublishError : Type 0 where
  invalid_argument : PublishError

-- The segments of all plugins, each with its end.
unfoldable pub native_segments : List Segment → Result PublishError (List NativeSegment)
native_segments [] = ok []
native_segments (s ∷ ss) =
    if leb u64_mod (s.start + length s.bytes)
    then err invalid_argument
    else if leb (length s.bytes) 0
    then err invalid_argument
    else try_result (native_segments ss) λ rest.
      ok (record { start = s.start; end = s.start + length s.bytes; bytes = s.bytes } ∷ rest)

-- `sort_unstable_by_key` by the start.
unfoldable pub insert_segment : NativeSegment → List NativeSegment → List NativeSegment
insert_segment s [] = s ∷ []
insert_segment s (r ∷ rs) =
    let later = insert_segment s rs in if leb s.start r.start then s ∷ r ∷ rs else r ∷ later

unfoldable pub sort_segments : List NativeSegment → List NativeSegment
unfolding insert_segment
sort_segments [] = []
sort_segments (s ∷ ss) = insert_segment s (sort_segments ss)

-- `windows(2).any(..)`.
unfoldable pub overlaps : List NativeSegment → Bool
overlaps [] = false
overlaps (s ∷ []) = false
overlaps (s ∷ t ∷ ss) = let rest = overlaps (t ∷ ss) in ltb t.start s.end || rest

abbrev pub total_bytes : List Segment → ℕ
total_bytes [] = 0
total_bytes (s ∷ ss) = length s.bytes + total_bytes ss

-- What `publish` makes of the plugins' specs, in the order of the names; `checked_add` of the sizes
-- cannot fail, since the vectors fit in memory.
unfoldable pub replacement : List (List Segment) → Result PublishError (List NativeSegment)
unfolding native_segments sort_segments overlaps
replacement specs =
    let all = concat specs in
    if ltb max_segments (length all) || ltb max_total_bytes (total_bytes all)
    then err invalid_argument
    else try_result (native_segments all) λ segments.
      let sorted = sort_segments segments in
      if overlaps sorted then err invalid_argument else ok sorted
