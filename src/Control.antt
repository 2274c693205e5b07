-- ===== src/Control.antt =====
-- bindings/rust/pinbridge-hub-core/src/control.rs, who may write to the target, and its use by
-- `dispatch_guarded` of service.rs. No code panics while it holds one of the two locks, so that
-- they are never poisoned.
pub mod Exclusion
use pin_bridge.Common.{
  ℕ, zero, suc, ◌+◌, ◌-◌, List, [], ◌∷◌, Bool, true, false, ◌&&◌, ◌||◌, not, Option, none, some,
  if◌then◌else◌, update,
}

pub data ControlMode : Type 0 where
  manual ai_read_only ai_assist ai_autonomous automation_paused : ControlMode

pub data ChannelActor : Type 0 where
  human ai system : ChannelActor

pub record Caller : Type 0 where
  pub actor : ChannelActor
  pub trusted : Bool

abbrev pub trusted_human : Caller
trusted_human = record { actor = human; trusted = true }

abbrev pub ai_can_write : ControlMode → Bool
ai_can_write ai_autonomous = true
ai_can_write _ = false

abbrev pub is_manual : ControlMode → Bool
is_manual manual = true
is_manual _ = false

abbrev pub is_paused : ControlMode → Bool
is_paused automation_paused = true
is_paused _ = false

abbrev pub is_human : ChannelActor → Bool
is_human human = true
is_human _ = false

-- The modes that `handoff` takes.
abbrev pub is_handoff_mode : ControlMode → Bool
is_handoff_mode ai_read_only = true
is_handoff_mode ai_assist = true
is_handoff_mode ai_autonomous = true
is_handoff_mode _ = false

pub record State : Type 0 where
  pub mode : ControlMode
  pub previous : Option ControlMode

abbrev pub new : ControlMode → State
new mode = record { mode = mode; previous = none }

pub data Denial : Type 0 where
  not_trusted_human invalid_mode ai_not_autonomous not_manual : Denial

abbrev pub ensure_ai_write : State → Option Denial
ensure_ai_write s = if ai_can_write s.mode then none else some ai_not_autonomous

abbrev pub ensure_human_write : State → Option Denial
ensure_human_write s = if is_manual s.mode then none else some not_manual

abbrev pub is_trusted_human : Caller → Bool
is_trusted_human c = is_human c.actor && c.trusted

unfoldable pub handoff : State → Caller → ControlMode → State × Option Denial
handoff s caller mode =
    if not (is_trusted_human caller)
    then (s, some not_trusted_human)
    else if not (is_handoff_mode mode)
    then (s, some invalid_mode)
    else (record { mode = mode; previous = none }, none)

unfoldable pub pause_automation : State → Caller → State × Option Denial
pause_automation s caller = if not (is_trusted_human caller) then (s, some not_trusted_human) else (
  record {
    mode = automation_paused;
    previous = if is_paused s.mode then s.previous else some s.mode;
  },
  none,
)

-- The change that `begin_takeover` makes under the gate.
unfoldable pub begin_takeover : State → Caller → State × Option Denial
begin_takeover s caller =
    if not (is_trusted_human caller)
    then (s, some not_trusted_human)
    else (record { mode = manual; previous = some s.mode }, none)

-- A request in `dispatch_guarded`: outside, with the read side of the gate, and past its check.
pub data Writer : Type 0 where
  outside : Writer
  guarded writing : ChannelActor → Writer

abbrev pub is_outside : Writer → Bool
is_outside outside = true
is_outside _ = false

-- The requests by number, and whether a takeover holds the write side of the gate.
pub record Hub : Type 0 where
  pub state : State
  pub taken : Bool
  pub writers : ℕ → Writer

-- Nobody holds the gate, so that its write side can be had.
abbrev pub gate_is_free : ℕ → (ℕ → Writer) → Bool
gate_is_free zero writers = true
gate_is_free (suc n) writers = is_outside (writers n) && gate_is_free n writers

pub data HubStep : Type 0 where
  begins : ℕ → ChannelActor → HubStep
  checks ends : ℕ → HubStep
  handoffs : Caller → ControlMode → HubStep
  pauses takes_over : Caller → HubStep
  leaves_takeover : HubStep

abbrev pub move : Hub → ℕ → Writer → Hub
move h i w = record h { writers = update h.writers i w }

abbrev pub granted : Option Denial → ChannelActor → Writer
granted none actor = writing actor
granted (some denial) actor = outside

-- The check of `dispatch_guarded`.
unfoldable pub check : State → ChannelActor → Writer
check s ai = granted (ensure_ai_write s) ai
check s human = granted (ensure_human_write s) human
check s system = outside

abbrev pub checked : Hub → ℕ → Writer → Hub
checked h i (guarded actor) = move h i (check h.state actor)
checked h i w = h

abbrev pub ended : Hub → ℕ → Writer → Hub
ended h i (writing actor) = move h i outside
ended h i w = h

-- One step of a hub with `n` requests. A step that waits for the gate changes nothing.
unfoldable pub hub_step : ℕ → Hub → HubStep → Hub
hub_step n h (begins i actor) =
    if not h.taken && is_outside (h.writers i) then move h i (guarded actor) else h
hub_step n h (checks i) = checked h i (h.writers i)
hub_step n h (ends i) = ended h i (h.writers i)
hub_step n h (handoffs caller mode) =
    if not h.taken && gate_is_free n h.writers
    then record h { state = (handoff h.state caller mode).0 }
    else h
hub_step n h (pauses caller) =
    if not h.taken && gate_is_free n h.writers
    then record h { state = (pause_automation h.state caller).0 }
    else h
hub_step n h (takes_over caller) =
    if not h.taken && gate_is_free n h.writers
    then record h { state = (begin_takeover h.state caller).0; taken = is_trusted_human caller }
    else h
hub_step n h leaves_takeover = record h { taken = false }

unfoldable pub hub_run : ℕ → Hub → List HubStep → Hub
hub_run n h [] = h
hub_run n h (s ∷ steps) = hub_run n (hub_step n h s) steps
