-- ===== src/Trap/Claims.antt =====
-- A claimed stop stays claimed until the resume.
use pin_bridge.Common.{
  ℕ, ◌≡◌, refl, ◌∙◌, List, [], ◌∷◌, Bool, true, not, ◌&&◌, ◌||◌, Option, none, some, Result, ok,
  err, All, arith, leb, by_cases, ◌==◌,
}
use pin_bridge.Event.{Event}
use pin_bridge.Trap.{
  Slot, Traps, PbStatus, pb_ok, init, any_active, some_bit, on_execute, publish_stopped, retired,
  retire, stored, flushed, remove, set, place, new_slot, bad_thread, with_bounds,
}
use pin_bridge.Trap.Sound.{
  Call, inits, executes, publishes, resumes, sets, removes, call, after_calls,
}

-- Every call but `on_resume`.
abbrev pub BeforeResume : Call → Type 0
BeforeResume resumes = ⊥
BeforeResume _ = Unit

-- The calls on the table keep the claim.
retired-claimed :
    (t : Traps) (o : Option (List Slot × Bool)) → (retired t o).0.stop_claimed ≡ t.stop_claimed
unfolding retired with_bounds
retired-claimed t none = refl
retired-claimed t (some (slots, live)) = refl

remove-claimed :
    (t : Traps) (locked : Bool) (id : ℕ) → (remove t locked id).0.stop_claimed ≡ t.stop_claimed
unfolding remove
remove-claimed t locked id =
    by_cases (λ (r : Traps × Bool). r.0.stop_claimed ≡ t.stop_claimed) (not (t.mutex && locked)) _ _
      (λ q. refl) (λ q. retired-claimed t (retire id t.slots t.pending_mask))

stored-claimed : (t : Traps) (o : Option (List Slot)) → (stored t o).0.stop_claimed ≡ t.stop_claimed
unfolding stored with_bounds
stored-claimed t none = refl
stored-claimed t (some slots) = refl

flushed-claimed :
    (r : Traps × Result PbStatus ℕ) (status : PbStatus) (locked : Bool)
    → (flushed r status locked).0.stop_claimed ≡ r.0.stop_claimed
unfolding flushed
flushed-claimed (t, err e) status locked = refl
flushed-claimed (t, ok id) pb_ok locked = refl
flushed-claimed (t, ok id) status locked = remove-claimed t locked id

set-claimed :
    (t : Traps) (probe_mode locked : Bool) (status : PbStatus) (relocked : Bool) (start end : ℕ)
    (one_shot : Bool) (thread_id : Option ℕ)
    → (set t probe_mode locked status relocked start end one_shot thread_id).0.stop_claimed
      ≡ t.stop_claimed
unfolding set
set-claimed t probe_mode locked status relocked start end one_shot thread_id =
    let Kept : Traps × Result PbStatus ℕ → Type 0 = λ r. r.0.stop_claimed ≡ t.stop_claimed in
    by_cases Kept ((start == 0) || (leb end start || bad_thread thread_id)) _ _ (λ q. refl)
      (λ q.
        by_cases Kept probe_mode _ _ (λ q'. refl)
          (λ q'.
            by_cases Kept (not (t.mutex && locked)) _ _ (λ u. refl)
              (λ u.
                flushed-claimed _ status relocked
                ∙ stored-claimed t (
                    place (new_slot t.next_id start end one_shot thread_id) t.slots
                      t.pending_mask))))

call-claimed :
    (t : Traps) (c : Call) → t.stop_claimed ≡ true → BeforeResume c → (call t c).stop_claimed ≡ true
unfolding call init on_execute publish_stopped
call-claimed t (inits created) e w =
    by_cases (λ (r : Traps). r.stop_claimed ≡ true) created _ _ (λ q. e) (λ q. e)
call-claimed t (executes address thread_id) e w =
    by_cases (λ (r : Traps × Bool). r.0.stop_claimed ≡ true) (not (any_active t) || t.stop_claimed)
      _ _ (λ q. e) (λ q. absurd (ground (arith, e)))
call-claimed t (publishes locked generation) e w =
    by_cases (λ (r : Traps × List Event). r.0.stop_claimed ≡ true)
      (not (some_bit t.pending_mask) || not (t.mutex && locked)) _ _ (λ q. e) (λ q. e)
call-claimed t resumes e w = absurd w
call-claimed t (sets probe_mode locked status relocked start end one_shot thread_id) e w =
    set-claimed t probe_mode locked status relocked start end one_shot thread_id ∙ e
call-claimed t (removes locked id) e w = remove-claimed t locked id ∙ e

pub after_calls-claimed :
    (t : Traps) (cs : List Call)
    → t.stop_claimed ≡ true
    → All BeforeResume cs
    → (after_calls t cs).stop_claimed ≡ true
unfolding after_calls
after_calls-claimed t [] e w = e
after_calls-claimed t (c ∷ cs) e w = after_calls-claimed (call t c) cs (call-claimed t c e w.0) w.1
