-- ===== src/Journal/Log.antt =====
-- The journal against a log that forgets nothing, over any sequence of calls.
use pin_bridge.Common.{
  ℕ, zero, suc, ◌+◌, ◌<◌, ◌≤◌, ◌≡◌, refl, sym, ap, ap₂, ◌∙◌, List, [], ◌∷◌, ◌++◌, map, false,
  Option, length, drop, if◌then◌else◌, u64_mod, arith, by_cases,
}
use pin_bridge.Journal.{
  Text, same_text, operation_id_of, Activity, Inner, begin, started, complete, complete_row, finish,
}
use pin_bridge.Journal.Ids.{operation_id_of-ne, same_text-ne, same_text-eq}

-- The calls that change the journal; a handle is the id that `begin` gave.
pub data Call (Value : Type 0) : Type 0 where
  begins : Text → Text → Option Text → Option Text → Text → Call Value
  finishes : Text → Text → Value → Text → Call Value

module _ {Value : Type 0} where
  -- A completion as it concerns an activity of the log.
  abbrev pub completed : Text → Text → Value → Text → Activity Value → Activity Value
  completed id outcome refs now r =
      if same_text r.operation_id id then complete outcome refs now r else r

  module _ (empty_object : Value) where
    unfoldable pub step : Inner Value → Call Value → Inner Value
    step i (begins actor action purpose parent now) =
        (begin empty_object i actor action purpose parent now).0
    step i (finishes id outcome refs now) = finish i id outcome refs now

    unfoldable pub run : Inner Value → List (Call Value) → Inner Value
    run i [] = i
    run i (c ∷ cs) = run (step i c) cs

    -- The log: the `n`th activity that begins gets the id of `n`; a completion is stored in
    -- every activity with the id.
    unfoldable pub log_step : List (Activity Value) → Call Value → List (Activity Value)
    log_step log (begins actor action purpose parent now) =
        log
        ++ started empty_object (operation_id_of (suc (length log))) actor action purpose parent now
          ∷ []
    log_step log (finishes id outcome refs now) = map (completed id outcome refs now) log

    unfoldable pub log_of : List (Activity Value) → List (Call Value) → List (Activity Value)
    log_of log [] = log
    log_of log (c ∷ cs) = log_of (log_step log c) cs

  -- The ids are those of consecutive numbers.
  abbrev pub Numbered : ℕ → List (Activity Value) → Type 0
  Numbered k [] = Unit
  Numbered k (r ∷ rs) = (r.operation_id ≡ operation_id_of k) × Numbered (suc k) rs

  pub Numbered-append :
      (k : ℕ) (rows : List (Activity Value)) (r : Activity Value)
      → Numbered k rows
      → r.operation_id ≡ operation_id_of (k + length rows)
      → Numbered k (rows ++ r ∷ [])
  Numbered-append k [] r h e = (let e' : k + 0 ≡ k = omega arith in e ∙ ap operation_id_of e', tt)
  Numbered-append k (x ∷ rows) r h e = (
    h.0,
    Numbered-append (suc k) rows r h.1 (
        let e' : k + length (x ∷ rows) ≡ suc k + length rows = omega arith in
        e ∙ ap operation_id_of e'),
  )

  pub Numbered-drop :
      (n k : ℕ) (rows : List (Activity Value)) → Numbered k rows → Numbered (k + n) (drop n rows)
  Numbered-drop zero k rows h = (let e : k + 0 ≡ k = omega arith in rw e h)
  Numbered-drop (suc n) k [] h = tt
  Numbered-drop (suc n) k (r ∷ rows) h =
      (let e : k + suc n ≡ suc k + n = omega arith in rw e (Numbered-drop n (suc k) rows h.1))

  module _ (id outcome : Text) (refs : Value) (now : Text) where
    completed-id :
        (r : Activity Value) → (completed id outcome refs now r).operation_id ≡ r.operation_id
    unfolding complete
    completed-id r = ground arith

    pub Numbered-completed :
        (k : ℕ) (rows : List (Activity Value))
        → Numbered k rows
        → Numbered k (map (completed id outcome refs now) rows)
    Numbered-completed k [] h = tt
    Numbered-completed k (r ∷ rows) h = (completed-id r ∙ h.0, Numbered-completed (suc k) rows h.1)

    map-completed_later :
        (m k : ℕ) (rows : List (Activity Value))
        → m < k
        → k + length rows ≤ u64_mod
        → id ≡ operation_id_of m
        → Numbered k rows
        → map (completed id outcome refs now) rows ≡ rows
    map-completed_later m k [] before small e h = refl
    map-completed_later m k (r ∷ rows) before small e h =
        let other : same_text r.operation_id id ≡ false =
          same_text-ne r.operation_id id
            λ same. operation_id_of-ne m k before (omega arith) (sym e ∙ sym same ∙ h.0) in
        ap₂ ◌∷◌ (ap (λ b. if b then complete outcome refs now r else r) other)
          (map-completed_later m (suc k) rows (omega arith) (omega arith) e h.1)

    pub complete_row-map :
        (k : ℕ) (rows : List (Activity Value))
        → k + length rows ≤ u64_mod
        → Numbered k rows
        → complete_row id outcome refs now rows ≡ map (completed id outcome refs now) rows
    unfolding complete_row
    complete_row-map k [] small h = refl
    complete_row-map k (r ∷ rows) small h =
        by_cases
          (λ t. t ≡ completed id outcome refs now r ∷ map (completed id outcome refs now) rows)
          (same_text r.operation_id id) (complete outcome refs now r ∷ rows)
          (r ∷ complete_row id outcome refs now rows)
          (λ same. rw same (
            ap (◌∷◌ (complete outcome refs now r)) (
              sym (
                map-completed_later k (suc k) rows (omega arith) (omega arith)
                  (sym (same_text-eq r.operation_id id same) ∙ h.0) h.1))))
          (λ other. rw other (ap (◌∷◌ r) (complete_row-map (suc k) rows (omega arith) h.1)))
