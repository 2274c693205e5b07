-- ===== src/Breaker/Race.antt =====
-- `on_hit_ctx` by its accesses to the table: two threads that hit one breakpoint.
use pin_bridge.Common.{
  ℕ, zero, suc, ◌+◌, ◌≡◌, refl, ap, ◌∙◌, List, [], ◌∷◌, Bool, true, false, Option, none, some,
  get_elem?, get_elem?-set_self, length, ◌<◌, lt_of_get_elem?, set, if◌then◌else◌, update, arith,
}
use pin_bridge.Ring.{add_u64, sub_u64}
use pin_bridge.Breaker.{Slot, Breaker, any_active, find}
use pin_bridge.Breaker.Table.{live}

-- Where a thread stands whose hit is not swallowed by a replay.
pub data HitPlace : Type 0 where
  -- before the load of the slot's `active`
  arrives : HitPlace
  -- the load saw true, and `hits` is to be raised
  passed : HitPlace
  -- `one_shot` is to be loaded
  counted : HitPlace
  -- it was true, and `active` is to be cleared
  fires : HitPlace
  -- ACTIVE_COUNT is to be lowered
  fired : HitPlace
  -- the stop is to be requested, or the slot was not active
  requests ignored : HitPlace

-- The next access, by the slot as it is now.
unfoldable pub advance : ℕ → Breaker → HitPlace → Option Slot → Breaker × HitPlace
advance index b place none = (b, place)
advance index b arrives (some s) = (b, if s.active then passed else ignored)
advance index b passed (some s) =
    (record b { slots = set b.slots index (record s { hits = add_u64 s.hits 1 }) }, counted)
advance index b counted (some s) = (b, if s.one_shot then fires else requests)
advance index b fires (some s) =
    (record b { slots = set b.slots index (record s { active = false }) }, fired)
advance index b fired (some s) = (record b { active_count = sub_u64 b.active_count 1 }, requests)
advance index b requests (some s) = (b, requests)
advance index b ignored (some s) = (b, ignored)

pub record Hits : Type 0 where
  pub breaker : Breaker
  pub places : ℕ → HitPlace

abbrev pub moved : Hits → ℕ → Breaker × HitPlace → Hits
moved h i r = record { breaker = r.0; places = update h.places i r.1 }

-- A schedule names the threads that make their next access to the slot `index`.
unfoldable pub run_hits : ℕ → Hits → List ℕ → Hits
run_hits index h [] = h
run_hits index h (i ∷ is) =
    run_hits index
      (moved h i (advance index h.breaker (h.places i) (get_elem? h.breaker.slots index))) is

abbrev pub at_breakpoint : Breaker → Hits
at_breakpoint b = record { breaker = b; places = λ i. arrives }

-- Both threads load `active` before one of them clears it.
abbrev pub overlapped : List ℕ
overlapped = 0 ∷ 1 ∷ 0 ∷ 0 ∷ 0 ∷ 0 ∷ 1 ∷ 1 ∷ 1 ∷ 1 ∷ []

next_access :
    (index : ℕ) (h : Hits) (i : ℕ) (is : List ℕ) (s : Slot)
    → get_elem? h.breaker.slots index ≡ some s
    → run_hits index h (i ∷ is)
      ≡ run_hits index (moved h i (advance index h.breaker (h.places i) (some s))) is
unfolding run_hits
next_access index h i is s e =
    ap (λ o. run_hits index (moved h i (advance index h.breaker (h.places i) o)) is) e

no_access : (index : ℕ) (h : Hits) → run_hits index h [] ≡ h
unfolding run_hits
no_access index h = refl

abbrev weight : Slot → ℕ
weight s = if s.active then 1 else 0

live-set :
    (ss : List Slot) (index : ℕ) (s t : Slot)
    → get_elem? ss index ≡ some s
    → live (set ss index t) + weight s ≡ live ss + weight t
live-set [] index s t e = absurd (cc e)
live-set (x ∷ xs) zero s t e =
    let same : weight x ≡ weight s =
      ap (λ (o : Option Slot). weight (elim o [ none ↦ x | some y ↦ y ])) e in
    omega (arith, same)
live-set (x ∷ xs) (suc index) s t e = omega (arith, live-set xs index s t e)

-- Two threads that hit one active one-shot breakpoint, both of which load `active` before one of them
-- clears it, where the count is 2 and right: each lowers the count, so that it is 0 while the other
-- breakpoint is still active, and the lookup finds no breakpoint at any address.
pub double_fire_hides :
    (b : Breaker) (index : ℕ) (used : Bool) (id address hits : ℕ)
    → get_elem? b.slots index
      ≡ some (record {
        used = used;
        id = id;
        address = address;
        hits = hits;
        active = true;
        one_shot = true;
      })
    → b.active_count ≡ live b.slots
    → live b.slots ≡ 2
    → (live (run_hits index (at_breakpoint b) overlapped).breaker.slots ≡ 1)
      × ((locked : Bool) (other : ℕ)
          → find (run_hits index (at_breakpoint b) overlapped).breaker locked other ≡ none)
unfolding advance find any_active
double_fire_hides b index used id address hits e count two =
    let s0 : Slot = record {
      used = used;
      id = id;
      address = address;
      hits = hits;
      active = true;
      one_shot = true;
    } in
    let s1 : Slot = record s0 { hits = add_u64 hits 1 } in
    let s2 : Slot = record s1 { active = false } in
    let s3 : Slot = record s2 { hits = add_u64 (add_u64 hits 1) 1 } in
    let ss1 = set b.slots index s1 in
    let ss2 = set ss1 index s2 in
    let ss3 = set ss2 index s3 in
    let ss4 = set ss3 index s3 in
    let n0 : index < length b.slots = lt_of_get_elem? b.slots index s0 e in
    let e1 : get_elem? ss1 index ≡ some s1 = get_elem?-set_self b.slots index s1 n0 in
    let e2 : get_elem? ss2 index ≡ some s2 =
      get_elem?-set_self ss1 index s2 (lt_of_get_elem? ss1 index s1 e1) in
    let e3 : get_elem? ss3 index ≡ some s3 =
      get_elem?-set_self ss2 index s3 (lt_of_get_elem? ss2 index s2 e2) in
    let e4 : get_elem? ss4 index ≡ some s3 =
      get_elem?-set_self ss3 index s3 (lt_of_get_elem? ss3 index s3 e3) in
    let b1 : Breaker = record b { slots = ss1 } in
    let b2 : Breaker = record b { slots = ss2 } in
    let b3 : Breaker = record b2 { active_count = sub_u64 b.active_count 1 } in
    let b4 : Breaker = record b3 { slots = ss3 } in
    let b5 : Breaker = record b3 { slots = ss4 } in
    let b6 : Breaker = record b5 { active_count = sub_u64 (sub_u64 b.active_count 1) 1 } in
    let h1 = moved (at_breakpoint b) 0 (b, passed) in
    let h2 = moved h1 1 (b, passed) in
    let h3 = moved h2 0 (b1, counted) in
    let h4 = moved h3 0 (b1, fires) in
    let h5 = moved h4 0 (b2, fired) in
    let h6 = moved h5 0 (b3, requests) in
    let h7 = moved h6 1 (b4, counted) in
    let h8 = moved h7 1 (b4, fires) in
    let h9 = moved h8 1 (b5, fired) in
    let runs : run_hits index (at_breakpoint b) overlapped ≡ moved h9 1 (b6, requests) =
      next_access index (at_breakpoint b) 0 (1 ∷ 0 ∷ 0 ∷ 0 ∷ 0 ∷ 1 ∷ 1 ∷ 1 ∷ 1 ∷ []) s0 e
      ∙ next_access index h1 1 (0 ∷ 0 ∷ 0 ∷ 0 ∷ 1 ∷ 1 ∷ 1 ∷ 1 ∷ []) s0 e
      ∙ next_access index h2 0 (0 ∷ 0 ∷ 0 ∷ 1 ∷ 1 ∷ 1 ∷ 1 ∷ []) s0 e
      ∙ next_access index h3 0 (0 ∷ 0 ∷ 1 ∷ 1 ∷ 1 ∷ 1 ∷ []) s1 e1
      ∙ next_access index h4 0 (0 ∷ 1 ∷ 1 ∷ 1 ∷ 1 ∷ []) s1 e1
      ∙ next_access index h5 0 (1 ∷ 1 ∷ 1 ∷ 1 ∷ []) s2 e2
      ∙ next_access index h6 1 (1 ∷ 1 ∷ 1 ∷ []) s2 e2
      ∙ next_access index h7 1 (1 ∷ 1 ∷ []) s3 e3
      ∙ next_access index h8 1 (1 ∷ []) s3 e3
      ∙ next_access index h9 1 [] s3 e4
      ∙ no_access index (moved h9 1 (b6, requests)) in
    let zero_left : sub_u64 (sub_u64 b.active_count 1) 1 ≡ 0 = omega (arith, count, two) in
    let lives : live ss4 ≡ 1 = omega (
      arith,
      two,
      live-set b.slots index s0 s1 e,
      live-set ss1 index s1 s2 e1,
      live-set ss2 index s2 s3 e2,
      live-set ss3 index s3 s3 e3,
    ) in
    rw runs (lives, λ locked other. rw zero_left refl)
