-- ===== src/Examples/Scope.antt =====
-- The recorder's gate on concrete requests.
use pin_bridge.Common.{◌^◌, ◌≡◌, refl, List, [], ◌∷◌, ◌++◌, true, false, none, some, arith}
use pin_bridge.Recorder.Scope.{
  Range, Scope, any_empty, check_start, bounds, store_scope, check_extension, fill_slots, extend,
  scan_ranges, in_record_ranges, armed_in_range, bad_mask,
}
use pin_bridge.Recorder.Scope.Gate.{
  Allows, store_scope-Allows, armed_in_range-store_scope, in_record_ranges-extend,
}

-- Two ranges, one thread, the kinds 2 and 3; then a third range.
abbrev asked : List Range
asked = (4096, 8192) ∷ (65536, 65792) ∷ []

abbrev nothing_yet : Scope
nothing_yet = record {
  armed = false;
  drain_done = true;
  failed = false;
  session_started = false;
  sticky = false;
  kinds = 0;
  lo = 0;
  hi = 0;
  range_count = 0;
  range_lo = λ _. 0;
  range_hi = λ _. 0;
  thread_count = 0;
  threads = λ _. 0;
}

abbrev recording_scope : Scope
recording_scope = store_scope nothing_yet 12 asked (7 ∷ [])

asked_passes : check_start nothing_yet 12 asked (7 ∷ []) 5 ≡ none
unfolding check_start any_empty
asked_passes = refl

-- Kind 11, the marker, cannot be asked for.
markers_refused : check_start nothing_yet (2 ^ 11) asked [] 5 ≡ some bad_mask
unfolding check_start any_empty
markers_refused = refl

asked-Allows : Allows recording_scope asked
asked-Allows = store_scope-Allows nothing_yet 12 asked (7 ∷ []) (omega arith) (omega arith)

armed_in_range-store_scope_example : armed_in_range recording_scope 65600 7 2 ≡ true
armed_in_range-store_scope_example =
    armed_in_range-store_scope nothing_yet 12 asked (7 ∷ []) 5 65600 7 2 asked_passes

abbrev more : List Range
more = (16, 32) ∷ []

more_passes : check_extension recording_scope more ≡ none
unfolding check_extension any_empty store_scope bounds
more_passes = refl

in_record_ranges-extend_example :
    (in_record_ranges (fill_slots recording_scope recording_scope.range_count more) 20 ≡ false)
    × (in_record_ranges (extend recording_scope more) 20 ≡ true)
    × Allows (extend recording_scope more) (asked ++ more)
in_record_ranges-extend_example =
    in_record_ranges-extend recording_scope asked more 20 asked-Allows more_passes

inside_asked : in_record_ranges recording_scope 65600 ≡ true
unfolding in_record_ranges scan_ranges store_scope bounds
inside_asked = refl
