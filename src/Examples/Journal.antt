-- ===== src/Examples/Journal.antt =====
-- The repository's own test of a full journal, and a completion that comes after its row has gone.
use pin_bridge.Common.{
  ℕ, ◌+◌, ◌≡◌, refl, List, [], ◌∷◌, map, length, none, arith, min, max, reverse, take, drop, ◌-◌,
}
use pin_bridge.Journal.{
  Text, Activity, new, list, get, find_row, operation_id_of, started, evict, begin, finish,
  complete_row, complete, same_text, digits, digit,
}
use pin_bridge.Journal.Log.{Call, begins, finishes, run, step, log_of}
use pin_bridge.Journal.Kept.{list-log_of}

-- `{}`, and the texts of the test.
abbrev empty_json : Text
empty_json = 123 ∷ 125 ∷ []

abbrev ai : Text
ai = 97 ∷ 105 ∷ []

abbrev ok_text : Text
ok_text = 111 ∷ 107 ∷ []

abbrev action : ℕ → Text
action n = (48 + n) ∷ []

abbrev begins_action : ℕ → Call Text
begins_action n = begins ai (action n) none none (48 ∷ [])

abbrev finishes_action : ℕ → Call Text
finishes_action n = finishes (operation_id_of n) ok_text empty_json (49 ∷ [])

-- Three activities, of which the first ends last.
abbrev three_calls : List (Call Text)
three_calls =
    begins_action 1
    ∷ begins_action 2
    ∷ finishes_action 2
    ∷ begins_action 3
    ∷ finishes_action 3
    ∷ finishes_action 1
    ∷ []

list-log_of_example :
    (list (run empty_json (new 2) three_calls) 10
      ≡ take (min 10 (max 2 1)) (reverse (log_of empty_json [] three_calls)))
    × (get (run empty_json (new 2) three_calls) (operation_id_of 1)
        ≡ find_row (operation_id_of 1) (
            drop
              (length (log_of empty_json [] three_calls) - max 2 1)
              (log_of empty_json [] three_calls)))
list-log_of_example = list-log_of empty_json 2 three_calls 10 (operation_id_of 1) (omega arith)

newest_first :
    map (λ (r : Activity Text). r.action) (list (run empty_json (new 2) three_calls) 10)
    ≡ action 3 ∷ action 2 ∷ []
unfolding list run new step begin finish evict started complete_row complete same_text
    operation_id_of digits digit
newest_first = refl

first_has_gone : get (run empty_json (new 2) three_calls) (operation_id_of 1) ≡ none
unfolding get find_row run new step begin finish evict started complete_row complete same_text
    operation_id_of digits digit
first_has_gone = refl
