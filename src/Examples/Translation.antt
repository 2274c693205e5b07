-- ===== src/Examples/Translation.antt =====
-- The translation rules of two plugins.
use pin_bridge.Common.{◌+◌, ◌≡◌, ◌<◌, refl, List, [], ◌∷◌, true, false, none, some, arith, u64_mod}
use pin_bridge.Translation.{
  Mapping, Spec, NativeRule, Access, applies, translate, on_translate, add_mappings, add_specs,
  total, publish_rules,
}
use pin_bridge.Translation.Rules.{Lands, on_translate_lem}

abbrev page : Mapping
page = record { source_start = 4096; source_end = 4352; target_start = 16384 }

abbrev word : Mapping
word = record { source_start = 4352; source_end = 4360; target_start = 0 }

abbrev filtered : Spec
filtered = record {
  mappings = page ∷ [];
  threads = 3 ∷ [];
  instruction_ranges = (8192, 8448) ∷ [];
  operations = 1;
  include_pin = false;
}

abbrev open_to_all : Spec
open_to_all = record {
  mappings = word ∷ [];
  threads = [];
  instruction_ranges = [];
  operations = 3;
  include_pin = true;
}

abbrev two_rules : List NativeRule
two_rules =
    record { mapping = page; spec = filtered } ∷ record { mapping = word; spec = open_to_all } ∷ []

abbrev load : Access
load = record {
  address = 4128;
  size = 8;
  instruction_pointer = 8272;
  thread_id = 3;
  memory_operation = 0;
  is_from_pin = false;
}

published : publish_rules (filtered ∷ open_to_all ∷ []) ≡ some two_rules
unfolding publish_rules total add_specs add_mappings
published = refl

-- The repository's own tests: the thread, the instruction, the operation and the origin all count.
honors_thread :
    translate (record { mapping = page; spec = filtered }) (record load { thread_id = 4 }) ≡ none
unfolding translate applies
honors_thread = refl

honors_origin :
    translate (record { mapping = page; spec = filtered }) (record load { is_from_pin = true })
    ≡ none
unfolding translate applies
honors_origin = refl

load_hits : translate (record { mapping = page; spec = filtered }) load ≡ some 16416
unfolding translate applies
load_hits = refl

on_translate_lem_example :
    (on_translate two_rules load ≡ 16416)
    × Lands (record { mapping = page; spec = filtered }) load 16416
    × (16416 + 8 < u64_mod)
on_translate_lem_example =
    on_translate_lem (filtered ∷ open_to_all ∷ []) two_rules 0
      (record { mapping = page; spec = filtered }) load 16416 published (omega arith) refl load_hits
