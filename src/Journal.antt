-- ===== src/Journal.antt =====
-- bindings/rust/pinbridge-hub-core/src/activities.rs, the journal of what the hub has done. Its lock
-- makes each call one step; the time is an argument of the calls that ask for it. A text is the
-- list of its characters, and `Value` the values of serde_json.
pub mod Ids
pub mod Log
pub mod Kept
use pin_bridge.Common.{
  ℕ, zero, suc, ◌+◌, ◌/◌, ◌%◌, min, max, List, [], ◌∷◌, ◌++◌, reverse, Bool, true, false, ◌&&◌,
  Option, none, some, length, take, ltb, ◌==◌, if◌then◌else◌, u64_mod,
}

-- The characters of a text.
abbrev pub Text : Type 0
Text = List ℕ

-- `==` of texts.
unfoldable pub same_text : Text → Text → Bool
same_text [] [] = true
same_text [] (b ∷ bs) = false
same_text (a ∷ cs) [] = false
same_text (a ∷ cs) (b ∷ bs) = (a == b) && same_text cs bs

-- A hexadecimal digit, in lower case.
unfoldable pub digit : ℕ → ℕ
digit d = if ltb d 10 then 48 + d else 87 + d

-- The last `w` digits of a number, the last one first.
unfoldable pub digits : ℕ → ℕ → Text
digits zero n = []
digits (suc w) n = digit (n % 16) ∷ digits w (n / 16)

-- `format!("op-{:016x}", n)`.
unfoldable pub operation_id_of : ℕ → Text
operation_id_of n = 111 ∷ 112 ∷ 45 ∷ reverse (digits 16 n)

abbrev pub in_progress : Text
in_progress = 105 ∷ 110 ∷ 95 ∷ 112 ∷ 114 ∷ 111 ∷ 103 ∷ 114 ∷ 101 ∷ 115 ∷ 115 ∷ []

pub record Activity (Value : Type 0) : Type 0 where
  pub operation_id : Text
  pub parent_operation_id : Option Text
  pub actor : Text
  pub action : Text
  pub purpose : Option Text
  pub started_at_ms : Text
  pub completed_at_ms : Option Text
  pub outcome : Text
  pub resource_refs : Value

pub record Inner (Value : Type 0) : Type 0 where
  pub next : ℕ
  pub rows : List (Activity Value)
  pub capacity : ℕ

module _ {Value : Type 0} where
  unfoldable pub new : ℕ → Inner Value
  new capacity = record { next = 1; rows = []; capacity = max capacity 1 }

  -- `while i.rows.len() > i.capacity { i.rows.pop_front(); }`.
  unfoldable pub evict : ℕ → List (Activity Value) → List (Activity Value)
  evict capacity [] = []
  evict capacity (r ∷ rs) = if ltb capacity (suc (length rs)) then evict capacity rs else r ∷ rs

  -- The row that `begin` pushes; `json!({})` is an argument.
  unfoldable pub started :
      Value → Text → Text → Text → Option Text → Option Text → Text → Activity Value
  started empty_object id actor action purpose parent now = record {
    operation_id = id;
    parent_operation_id = parent;
    actor = actor;
    action = action;
    purpose = purpose;
    started_at_ms = now;
    completed_at_ms = none;
    outcome = in_progress;
    resource_refs = empty_object;
  }

  -- The journal after, and the id of the handle.
  unfoldable pub begin :
      Value → Inner Value → Text → Text → Option Text → Option Text → Text → Inner Value × Text
  begin empty_object i actor action purpose parent now =
      let id = operation_id_of i.next in
      let row = started empty_object id actor action purpose parent now in
      (
        record i {
          next = max ((i.next + 1) % u64_mod) 1;
          rows = evict i.capacity (i.rows ++ row ∷ []);
        },
        id,
      )

  unfoldable pub list : Inner Value → ℕ → List (Activity Value)
  list i limit = take (min limit i.capacity) (reverse i.rows)

  unfoldable pub find_row : Text → List (Activity Value) → Option (Activity Value)
  find_row id [] = none
  find_row id (r ∷ rs) = if same_text r.operation_id id then some r else find_row id rs

  unfoldable pub get : Inner Value → Text → Option (Activity Value)
  get i id = find_row id i.rows

  unfoldable pub contains : Inner Value → Text → Bool
  contains i id = elim (get i id) [ none ↦ false | some r ↦ true ]

  -- What `finish` stores in the row that it finds.
  unfoldable pub complete : Text → Value → Text → Activity Value → Activity Value
  complete outcome refs now r = record r {
    completed_at_ms = some now;
    outcome = outcome;
    resource_refs = refs;
  }

  -- `if let Some(row) = i.rows.iter_mut().find(..)`: the first row with the id.
  unfoldable pub complete_row :
      Text → Text → Value → Text → List (Activity Value) → List (Activity Value)
  complete_row id outcome refs now [] = []
  complete_row id outcome refs now (r ∷ rs) =
      if same_text r.operation_id id
      then complete outcome refs now r ∷ rs
      else r ∷ complete_row id outcome refs now rs

  unfoldable pub finish : Inner Value → Text → Text → Value → Text → Inner Value
  finish i id outcome refs now = record i { rows = complete_row id outcome refs now i.rows }
