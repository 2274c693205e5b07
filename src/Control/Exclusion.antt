-- ===== src/Control/Exclusion.antt =====
-- While a request writes to the target, the mode stays the one that allowed it.
use pin_bridge.Common.{
  ℕ, zero, suc, ◌<◌, ◌≡◌, refl, sym, subst, List, [], ◌∷◌, Bool, true, false, ◌&&◌, not, Option,
  none, some, arith, by_cases, ◌==◌, dec_lt,
}
use pin_bridge.Control.{
  granted, Denial, ai_not_autonomous, not_manual, is_trusted_human, new, ControlMode, ai_autonomous,
  ai_can_write, is_manual, ChannelActor, human, ai, system, State, handoff, pause_automation,
  begin_takeover, Writer, outside, guarded, writing, is_outside, Hub, gate_is_free, HubStep, begins,
  checks, ends, handoffs, pauses, takes_over, leaves_takeover, move, check, checked, ended,
  hub_step, hub_run,
}

-- What the mode must be for a request to write.
abbrev pub Allowed : ControlMode → Writer → Type 0
Allowed mode (writing ai) = ai_can_write mode ≡ true
Allowed mode (writing human) = is_manual mode ≡ true
Allowed mode (writing system) = true ≡ false
Allowed mode (guarded actor) = Unit {0}
Allowed mode outside = Unit {0}

abbrev pub Sound : ℕ → Hub → Type 0
Sound n h = (i : ℕ) → i < n → Allowed h.state.mode (h.writers i)

move-Sound :
    (n i : ℕ) (h : Hub) (w : Writer) → Allowed h.state.mode w → Sound n h → Sound n (move h i w)
move-Sound n i h w ok v j lt =
    by_cases (λ u. Allowed h.state.mode u) (i == j) w (h.writers j) (λ _. ok) (λ _. v j lt)

both : (mode : ControlMode) → ai_can_write mode ≡ true → is_manual mode ≡ true → ai ≡ human
both ai_autonomous h k = cc
both mode h k = cc

-- A hub that has just been made, without requests.
abbrev pub quiet_hub : ControlMode → Hub
quiet_hub mode = record { state = new mode; taken = false; writers = λ _. outside }

same_actor :
    (mode : ControlMode) (a b : ChannelActor)
    → Allowed mode (writing a)
    → Allowed mode (writing b)
    → a ≡ b
same_actor mode ai ai va vb = refl
same_actor mode human human va vb = refl
same_actor mode system b va vb = cc
same_actor mode ai system va vb = cc
same_actor mode human system va vb = cc
same_actor mode ai human va vb = both mode va vb
same_actor mode human ai va vb = sym (both mode vb va)

check-Allowed : (s : State) (actor : ChannelActor) → Allowed s.mode (check s actor)
unfolding check
check-Allowed s ai =
    by_cases {A = Option Denial} (λ o. Allowed s.mode (granted o ai)) (ai_can_write s.mode) none
      (some ai_not_autonomous) (λ y. y) (λ _. tt)
check-Allowed s human =
    by_cases {A = Option Denial} (λ o. Allowed s.mode (granted o human)) (is_manual s.mode) none
      (some not_manual) (λ y. y) (λ _. tt)
check-Allowed s system = tt

free-outside :
    (n : ℕ) (writers : ℕ → Writer) (i : ℕ)
    → gate_is_free n writers ≡ true
    → i < n
    → is_outside (writers i) ≡ true
free-outside zero writers i h lt = absurd (omega arith)
free-outside (suc n) writers i h lt = elim (dec_lt i n) [
  | yes below ↦ free-outside n writers i (ground arith) below
  | no last ↦
      let here : i ≡ n = omega arith in
      let first : is_outside (writers n) ≡ true = ground arith in rw here first
]

outside-Allowed : (mode : ControlMode) (w : Writer) → is_outside w ≡ true → Allowed mode w
outside-Allowed mode outside h = tt
outside-Allowed mode (guarded actor) h = tt
outside-Allowed mode (writing actor) h = cc

change-Sound :
    (n : ℕ) (h : Hub) (s : State) (b : Bool)
    → not h.taken && gate_is_free n h.writers ≡ true
    → Sound n (record h { state = s; taken = b })
change-Sound n h s b free i lt =
    outside-Allowed s.mode (h.writers i) (free-outside n h.writers i (ground arith) lt)

checked-Sound : (n i : ℕ) (h : Hub) (w : Writer) → Sound n h → Sound n (checked h i w)
checked-Sound n i h (guarded actor) v =
    move-Sound n i h (check h.state actor) (check-Allowed h.state actor) v
checked-Sound n i h (writing actor) v = v
checked-Sound n i h outside v = v

ended-Sound : (n i : ℕ) (h : Hub) (w : Writer) → Sound n h → Sound n (ended h i w)
ended-Sound n i h (writing actor) v = move-Sound n i h outside tt v
ended-Sound n i h (guarded actor) v = v
ended-Sound n i h outside v = v

hub_step-Sound : (n : ℕ) (h : Hub) (s : HubStep) → Sound n h → Sound n (hub_step n h s)
unfolding hub_step
hub_step-Sound n h (begins i actor) v =
    by_cases (Sound n) (not h.taken && is_outside (h.writers i)) _ _
      (λ _. move-Sound n i h (guarded actor) tt v) (λ _. v)
hub_step-Sound n h (checks i) v = checked-Sound n i h (h.writers i) v
hub_step-Sound n h (ends i) v = ended-Sound n i h (h.writers i) v
hub_step-Sound n h (handoffs caller mode) v =
    by_cases (Sound n) (not h.taken && gate_is_free n h.writers) _ _
      (λ free. change-Sound n h (handoff h.state caller mode).0 h.taken free) (λ _. v)
hub_step-Sound n h (pauses caller) v =
    by_cases (Sound n) (not h.taken && gate_is_free n h.writers) _ _
      (λ free. change-Sound n h (pause_automation h.state caller).0 h.taken free) (λ _. v)
hub_step-Sound n h (takes_over caller) v =
    by_cases (Sound n) (not h.taken && gate_is_free n h.writers) _ _
      (λ free. change-Sound n h (begin_takeover h.state caller).0 (is_trusted_human caller) free)
      (λ _. v)
hub_step-Sound n h leaves_takeover v = v

hub_run-Sound : (n : ℕ) (h : Hub) (steps : List HubStep) → Sound n h → Sound n (hub_run n h steps)
unfolding hub_run
hub_run-Sound n h [] v = v
hub_run-Sound n h (s ∷ steps) v = hub_run-Sound n (hub_step n h s) steps (hub_step-Sound n h s v)

-- From a hub without requests, after any steps of `n` requests, of handoffs, pauses and takeovers:
-- a request of the AI writes only while the mode is the autonomous one, and a request of a human
-- only while it is the manual one, the whole of its write included, and the system never writes.
-- So no two requests of different actors write at the same time.
pub hub_run-exclusive :
    (n : ℕ) (mode : ControlMode) (steps : List HubStep) (i j : ℕ) (a b : ChannelActor)
    → i < n
    → j < n
    → (hub_run n (quiet_hub mode) steps).writers i ≡ writing a
    → (hub_run n (quiet_hub mode) steps).writers j ≡ writing b
    → (a ≡ b) × Allowed (hub_run n (quiet_hub mode) steps).state.mode (writing a)
hub_run-exclusive n mode steps i j a b lti ltj wi wj =
    let v = hub_run-Sound n (quiet_hub mode) steps (λ _ _. tt) in
    let m = (hub_run n (quiet_hub mode) steps).state.mode in
    let va : Allowed m (writing a) = subst (Allowed m) wi (v i lti) in
    let vb : Allowed m (writing b) = subst (Allowed m) wj (v j ltj) in (same_actor m a b va vb, va)
