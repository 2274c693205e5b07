-- ===== src/Examples/CodeFetch.antt =====
-- Two segments over a page of code, and the theorems on code fetches at them.
use pin_bridge.Common.{
  ℕ, ◌%◌, ◌<◌, ◌≡◌, refl, List, [], ◌∷◌, Option, none, some, false, arith, ltb, if◌then◌else◌,
}
use pin_bridge.CodeFetch.{Segment, NativeSegment}
use pin_bridge.CodeFetch.Overlay.{readable, overlay}
use pin_bridge.CodeFetch.Readers.{
  Action, fetches, publishes, holding, at_start, step, run, snapshot_is_live,
}

-- One page of code.
abbrev page : ℕ → Option ℕ
page x = if ltb x 4096 then some (x % 256) else none

abbrev fetch_page : ℕ → ℕ → Option (List ℕ)
fetch_page address size = some (readable page address size)

-- Two plugins, the later segment first.
abbrev patches : List (List Segment)
patches =
    (record { start = 20; bytes = 204 ∷ [] } ∷ [])
    ∷ (record { start = 10; bytes = 144 ∷ 144 ∷ [] } ∷ [])
    ∷ []

abbrev laid : List NativeSegment
laid =
    record { start = 10; end = 12; bytes = 144 ∷ 144 ∷ [] }
    ∷ record { start = 20; end = 21; bytes = 204 ∷ [] }
    ∷ []

fetched :
    readable (overlay laid page) 9 13
    ≡ 9 ∷ 144 ∷ 144 ∷ 12 ∷ 13 ∷ 14 ∷ 15 ∷ 16 ∷ 17 ∷ 18 ∷ 19 ∷ 204 ∷ 21 ∷ []
unfolding readable overlay
fetched = refl

-- A fetch that loads the first policy while the second is published.
abbrev replaced_under_fetch : List Action
replaced_under_fetch =
    publishes
    ∷ publishes
    ∷ publishes
    ∷ fetches 0
    ∷ fetches 0
    ∷ publishes
    ∷ publishes
    ∷ fetches 1
    ∷ []

snapshot_is_live_example :
    ((i w : ℕ)
      → i < 2
      → (run at_start replaced_under_fetch).threads i ≡ holding w
      → (run at_start replaced_under_fetch).freed w ≡ false)
    × ((run at_start replaced_under_fetch).freed (run at_start replaced_under_fetch).policy ≡ false)
snapshot_is_live_example =
    snapshot_is_live 2 replaced_under_fetch
      (tt, (tt, (tt, (omega arith, (omega arith, (tt, (tt, (omega arith, tt))))))))

holds_the_old : (run at_start replaced_under_fetch).threads 0 ≡ holding 1
unfolding run step at_start
holds_the_old = refl
