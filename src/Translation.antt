-- ===== src/Translation.antt =====
-- bindings/rust/pinbridge-agent/src/scripting/memory_translation.rs: the rules that `publish` makes
-- of the plugins' specs, and their use in the callback `on_translate`. The registry's specs are an
-- argument, sorted by plugin; their threads are sorted, so that `binary_search` is membership.
pub mod Rules
use pin_bridge.Common.{
  ℕ, zero, suc, ◌+◌, ◌-◌, ◌^◌, List, [], ◌∷◌, ◌++◌, Bool, true, false, ◌&&◌, ◌||◌, not, Option,
  none, some, ltb, leb, ◌==◌, if◌then◌else◌, bit_and, length, u32_mod, u64_mod,
}

pub record Mapping : Type 0 where
  pub source_start : ℕ
  pub source_end : ℕ
  pub target_start : ℕ

pub record Spec : Type 0 where
  pub mappings : List Mapping
  pub threads : List ℕ
  pub instruction_ranges : List (ℕ × ℕ)
  pub operations : ℕ
  pub include_pin : Bool

-- A rule, by the mapping and the spec that its fields are copied from.
pub record NativeRule : Type 0 where
  pub mapping : Mapping
  pub spec : Spec

-- `PbMemoryTransInfo`.
pub record Access : Type 0 where
  pub address : ℕ
  pub size : ℕ
  pub instruction_pointer : ℕ
  pub thread_id : ℕ
  pub memory_operation : ℕ
  pub is_from_pin : Bool

abbrev pub max_mappings : ℕ
max_mappings = 64

abbrev pub max_threads : ℕ
max_threads = 64

abbrev pub max_instruction_ranges : ℕ
max_instruction_ranges = 64

abbrev pub op_all : ℕ
op_all = 3

abbrev pub checked_add : ℕ → ℕ → Option ℕ
checked_add a b = if ltb (a + b) u64_mod then some (a + b) else none

abbrev pub contains : List ℕ → ℕ → Bool
contains [] t = false
contains (x ∷ xs) t = (x == t) || contains xs t

abbrev pub in_ranges : List (ℕ × ℕ) → ℕ → Bool
in_ranges [] ip = false
in_ranges ((start, end) ∷ ranges) ip = (leb start ip && ltb ip end) || in_ranges ranges ip

abbrev pub is_nil {ℓ} : {A : Type ℓ} → List A → Bool
is_nil [] = true
is_nil (x ∷ xs) = false

-- The filters of `translate`.
unfoldable pub applies : Spec → Access → Bool
applies s a =
    not (a.is_from_pin && not s.include_pin)
    && (not (leb 32 a.memory_operation || bit_and s.operations (2 ^ a.memory_operation) == 0)
        && ((is_nil s.threads || contains s.threads a.thread_id)
            && (is_nil s.instruction_ranges
                || in_ranges s.instruction_ranges a.instruction_pointer)))

-- The arithmetic of `translate`, with the end of the access.
abbrev pub shift : Mapping → ℕ → Option ℕ → Option ℕ
shift m address none = none
shift m address (some access_end) =
    if ltb address m.source_start || ltb m.source_end access_end
    then none
    else checked_add m.target_start (address - m.source_start)

unfoldable pub translate : NativeRule → Access → Option ℕ
translate r a =
    if applies r.spec a then shift r.mapping a.address (checked_add a.address a.size) else none

abbrev pub or_else : Option ℕ → ℕ → ℕ
or_else none rest = rest
or_else (some translated) rest = translated

unfoldable pub on_translate : List NativeRule → Access → ℕ
on_translate [] a = a.address
on_translate (r ∷ rules) a = or_else (translate r a) (on_translate rules a)

unfoldable pub on_rewrite : List NativeRule → ℕ → ℕ → ℕ → ℕ → ℕ → ℕ
unfolding on_translate
on_rewrite rules instruction_address thread_id memory_address size memory_operation =
    on_translate rules (record {
      address = memory_address;
      size = size;
      instruction_pointer = instruction_address;
      thread_id = thread_id;
      memory_operation = memory_operation;
      is_from_pin = false;
    })

unfoldable pub wants_instruction : List NativeRule → ℕ → Bool
wants_instruction [] address = false
wants_instruction (r ∷ rules) address =
    (is_nil r.spec.instruction_ranges || in_ranges r.spec.instruction_ranges address)
    || wants_instruction rules address

-- `occupied.iter().any(..)`.
abbrev pub overlaps : Mapping → List NativeRule → Bool
overlaps m [] = false
overlaps m (r ∷ rules) =
    (ltb m.source_start r.mapping.source_end && ltb r.mapping.source_start m.source_end)
    || overlaps m rules

abbrev pub is_none {ℓ} : {A : Type ℓ} → Option A → Bool
is_none none = true
is_none (some a) = false

abbrev pub is_bad_mapping : Mapping → List NativeRule → Bool
is_bad_mapping m rules =
    leb m.source_end m.source_start
    || (is_none (checked_add m.target_start (m.source_end - m.source_start)) || overlaps m rules)

abbrev pub is_bad_spec : Spec → Bool
is_bad_spec s =
    s.operations == 0
    || (not (bit_and s.operations (u32_mod - 1 - op_all) == 0)
        || (ltb max_threads (length s.threads)
            || ltb max_instruction_ranges (length s.instruction_ranges)))

-- The loop over the mappings of a spec, behind the rules so far; `occupied` is their source ranges.
unfoldable pub add_mappings : Spec → List Mapping → List NativeRule → Option (List NativeRule)
add_mappings s [] rules = some rules
add_mappings s (m ∷ mappings) rules =
    let rest = add_mappings s mappings (rules ++ record { mapping = m; spec = s } ∷ []) in
    if is_bad_mapping m rules then none else rest

unfoldable pub add_specs : List Spec → List NativeRule → Option (List NativeRule)
unfolding add_mappings
add_specs [] rules = some rules
add_specs (s ∷ specs) rules =
    if is_bad_spec s
    then none
    else elim (add_mappings s s.mappings rules) [ none ↦ none | some more ↦ add_specs specs more ]

unfoldable pub total : List Spec → ℕ
total [] = 0
total (s ∷ specs) = length s.mappings + total specs

-- The rules of `publish`, or the invalid argument that it reports.
unfoldable pub publish_rules : List Spec → Option (List NativeRule)
unfolding total add_specs
publish_rules specs = if ltb max_mappings (total specs) then none else add_specs specs []
