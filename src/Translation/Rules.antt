-- ===== src/Translation/Rules.antt =====
-- The rules that pass the checks of `publish` never meet.
use pin_bridge.Common.{
  ℕ, zero, suc, ◌+◌, ◌-◌, ◌≤◌, ◌<◌, ◌≡◌, refl, ap, subst, ◌∙◌, List, [], ◌∷◌, false, none, some,
  ltb, arith, Bool-cases, inl, inr, ◌⊎◌, u64_mod, All, All-append, ◌++◌, get_elem?, Option-cases,
}
use pin_bridge.Translation.{
  Mapping, Spec, NativeRule, Access, translate, on_translate, overlaps, is_bad_mapping,
  add_mappings, add_specs, total, publish_rules, is_bad_spec, max_mappings,
}

-- Where a rule translates an access: the access lies in its source range, and the result as far
-- into the target range, without overflow.
pub Lands : NativeRule → Access → ℕ → Type 0
Lands r a x =
    (r.mapping.source_start ≤ a.address)
    × (a.address + a.size ≤ r.mapping.source_end)
    × (x ≡ r.mapping.target_start + (a.address - r.mapping.source_start))

translate-some : (r : NativeRule) (a : Access) (x : ℕ) → translate r a ≡ some x → Lands r a x
unfolding translate Lands
translate-some r a x h = ground arith

Fits : NativeRule → Type 0
Fits r =
    (r.mapping.source_start < r.mapping.source_end)
    × (r.mapping.target_start + (r.mapping.source_end - r.mapping.source_start) < u64_mod)

Disjoint : NativeRule → NativeRule → Type 0
Disjoint q r =
    (q.mapping.source_end ≤ r.mapping.source_start)
    ⊎ (r.mapping.source_end ≤ q.mapping.source_start)

-- The source ranges are not empty, no target range overflows, and no two source ranges meet.
Apart : List NativeRule → Type 0
Apart [] = Unit {0}
Apart (r ∷ rules) = Fits r × All (Disjoint r) rules × Apart rules

overlaps-false :
    (r : NativeRule) (rules : List NativeRule)
    → overlaps r.mapping rules ≡ false
    → All (λ q. Disjoint q r) rules
unfolding Disjoint
overlaps-false r [] h = tt
overlaps-false r (q ∷ rules) h = (ground arith, overlaps-false r rules (ground arith))

Apart-append :
    (r : NativeRule) (rules : List NativeRule)
    → Apart rules
    → All (λ q. Disjoint q r) rules
    → Fits r
    → Apart (rules ++ r ∷ [])
unfolding Apart
Apart-append r [] v d f = (f, tt, tt)
Apart-append r (q ∷ rules) v d f =
    (v.0, All-append (Disjoint q) rules (r ∷ []) v.1 (d.0, tt), Apart-append r rules v.2 d.1 f)

add_mappings-Apart :
    (s : Spec) (mappings : List Mapping) (rules more : List NativeRule)
    → Apart rules
    → add_mappings s mappings rules ≡ some more
    → Apart more
unfolding add_mappings Fits
add_mappings-Apart s [] rules more v h = let same : rules ≡ more = cc in subst Apart same v
add_mappings-Apart s (m ∷ mappings) rules more v h = elim (Bool-cases (is_bad_mapping m rules)) [
  | inl bad ↦ let no : none ≡ some more = rw bad at h in cc
  | inr good ↦
      let r : NativeRule = record { mapping = m; spec = s } in
      let fits : Fits r = (ground arith, ground arith) in
      let apart : overlaps m rules ≡ false = ground arith in
      add_mappings-Apart s mappings (rules ++ r ∷ []) more
        (Apart-append r rules v (overlaps-false r rules apart) fits) (rw good at h)
]

add_specs-Apart :
    (specs : List Spec) (rules more : List NativeRule)
    → Apart rules
    → add_specs specs rules ≡ some more
    → Apart more
unfolding add_specs
add_specs-Apart [] rules more v h = let same : rules ≡ more = cc in subst Apart same v
add_specs-Apart (s ∷ specs) rules more v h = elim (Bool-cases (is_bad_spec s)) [
  | inl bad ↦ let no : none ≡ some more = rw bad at h in cc
  | inr good ↦ elim (Option-cases (add_mappings s s.mappings rules)) [
    | inl failed ↦ let no : none ≡ some more = rw (good, failed) at h in cc
    | inr (rules', added) ↦
        add_specs-Apart specs rules' more (add_mappings-Apart s s.mappings rules rules' v added)
          (rw (good, added) at h)
  ]
]

publish_rules-Apart :
    (specs : List Spec) (rules : List NativeRule) → publish_rules specs ≡ some rules → Apart rules
unfolding publish_rules Apart
publish_rules-Apart specs rules h = elim (Bool-cases (ltb max_mappings (total specs))) [
  | inl many ↦ let no : none ≡ some rules = rw many at h in cc
  | inr few ↦ add_specs-Apart specs [] rules tt (rw few at h)
]

apart :
    (q r : NativeRule) (a : Access) (y x : ℕ)
    → 0 < a.size
    → Disjoint q r
    → Lands q a y
    → Lands r a x
    → ⊥
unfolding Disjoint Lands
apart q r a y x wide (inl d) hq hr = omega (arith, d, hq.1, hr.0)
apart q r a y x wide (inr d) hq hr = omega (arith, d, hq.0, hr.1)

below : (r : NativeRule) (a : Access) (x : ℕ) → Fits r → Lands r a x → x + a.size < u64_mod
unfolding Fits Lands
below r a x f l = omega (arith, f.0, f.1, l.0, l.1, l.2)

All-get_elem? :
    (P : NativeRule → Type 0) (rules : List NativeRule) (i : ℕ) (r : NativeRule)
    → All P rules
    → get_elem? rules i ≡ some r
    → P r
All-get_elem? P [] i r v h = cc
All-get_elem? P (q ∷ rules) zero r v h = let same : q ≡ r = cc in subst P same v.0
All-get_elem? P (q ∷ rules) (suc i) r v h = All-get_elem? P rules i r v.1 h

on_translate-Apart :
    (rules : List NativeRule) (i : ℕ) (r : NativeRule) (a : Access) (x : ℕ)
    → Apart rules
    → 0 < a.size
    → get_elem? rules i ≡ some r
    → translate r a ≡ some x
    → on_translate rules a ≡ x
unfolding on_translate Apart
on_translate-Apart [] i r a x v wide h t = cc
on_translate-Apart (q ∷ rules) zero r a x v wide h t =
    let same : q ≡ r = cc in
    let first : translate q a ≡ some x = ap (λ u. translate u a) same ∙ t in rw first refl
on_translate-Apart (q ∷ rules) (suc i) r a x v wide h t = elim (Option-cases (translate q a)) [
  | inl passes ↦ rw passes (on_translate-Apart rules i r a x v.2 wide h t)
  | inr (y, hit) ↦ absurd (
      apart q r a y x wide (All-get_elem? (Disjoint q) rules i r v.1 h) (translate-some q a y hit)
        (translate-some r a x t))
]

Fits-at :
    (rules : List NativeRule) (i : ℕ) (r : NativeRule)
    → Apart rules
    → get_elem? rules i ≡ some r
    → Fits r
unfolding Apart
Fits-at [] i r v h = cc
Fits-at (q ∷ rules) zero r v h = let same : q ≡ r = cc in subst Fits same v.0
Fits-at (q ∷ rules) (suc i) r v h = Fits-at rules i r v.2 h

-- With the rules that `publish` accepts, whichever of them translates an access of at least one
-- byte, `on_translate` answers with its translation, so their order does not matter. The access
-- lies in the rule's source range, and the translated access as far into its target range, below
-- 2^64 to its last byte.
pub on_translate_lem :
    (specs : List Spec) (rules : List NativeRule) (i : ℕ) (r : NativeRule) (a : Access) (x : ℕ)
    → publish_rules specs ≡ some rules
    → 0 < a.size
    → get_elem? rules i ≡ some r
    → translate r a ≡ some x
    → (on_translate rules a ≡ x) × Lands r a x × (x + a.size < u64_mod)
on_translate_lem specs rules i r a x published wide at_i hit =
    let v = publish_rules-Apart specs rules published in
    let lands = translate-some r a x hit in
    (
      on_translate-Apart rules i r a x v wide at_i hit,
      lands,
      below r a x (Fits-at rules i r v at_i) lands,
    )
