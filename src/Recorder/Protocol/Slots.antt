-- ===== src/Recorder/Protocol/Slots.antt =====
-- The slab: who owns which slot, and which slots are published.
use pin_bridge.Common.{
  ℕ, suc, ◌+◌, ◌%◌, ◌≤◌, ◌<◌, ◌≡◌, ◌≢◌, ◌∙◌, ap, ◌⊎◌, List, [], ◌∷◌, ◌++◌, Option, none, some,
  arith, length, get_elem?, get_elem?-append_left, get_elem?-append_length,
}
use pin_bridge.Event.{Event}
use pin_bridge.Ring.Holds.{number, length-number, number-append}
use pin_bridge.Recorder.Protocol.{Producer, loaded, roomy, reserved, wrote, update}

-- The slot that a thread has reserved and not yet published.
abbrev pub holds : Producer → Option ℕ
holds (reserved e c) = some c
holds (wrote e c) = some c
holds _ = none

pub number-old :
    (log : List Event) (e : Event) (c : ℕ)
    → c < length log
    → get_elem? (number 0 (log ++ e ∷ [])) c ≡ get_elem? (number 0 log) c
number-old log e c h =
    ap (λ l. get_elem? l c) (number-append 0 log e)
    ∙ get_elem?-append_left (number 0 log) _ c (omega (arith, length-number 0 log))

pub number-new :
    (log : List Event) (e : Event) (c : ℕ)
    → c ≡ length log
    → get_elem? (number 0 (log ++ e ∷ [])) c ≡ some (record e { sequence = c + 1 })
number-new log e c h =
    let here : suc (0 + length log) ≡ c + 1 = omega arith in
    ap (λ l. get_elem? l c) (number-append 0 log e)
    ∙ get_elem?-append_length (number 0 log) [] _ c (omega (arith, length-number 0 log))
    ∙ ap (λ s. some (record e { sequence = s })) here

pub update_self {ℓ} : {A : Type ℓ} (f : ℕ → A) (i j : ℕ) (a : A) → i ≡ j → update f i a j ≡ a
update_self f i j a h = ground arith

pub update-ne {ℓ} : {A : Type ℓ} (f : ℕ → A) (i j : ℕ) (a : A) → i ≢ j → update f i a j ≡ f j
update-ne f i j a h = ground arith

module _ (size claim next : ℕ) (log : List Event) (tag : ℕ → ℕ) (payload : ℕ → Event) where
  -- A slot in hand: reserved in the window, not published, and its event is in the log.
  abbrev pub Owned : Event → ℕ → Type 0
  Owned e c =
      (next ≤ c)
      × (c < claim)
      × (tag (c % size) ≢ c + 1)
      × (get_elem? (number 0 log) c ≡ some (record e { sequence = c + 1 }))

  abbrev pub Fine : Producer → Type 0
  Fine (loaded e c) = c ≤ claim
  Fine (roomy e c) = c < next + size
  Fine (reserved e c) = Owned e c
  Fine (wrote e c) = Owned e c × (payload (c % size) ≡ record e { sequence = c + 1 })
  Fine _ = Unit {0}

  abbrev pub Published : ℕ → Type 0
  Published c = (tag (c % size) ≡ c + 1) × (get_elem? (number 0 log) c ≡ some (payload (c % size)))

pub record Slots (size n claim next : ℕ) (log : List Event) (tag : ℕ → ℕ) (payload : ℕ → Event)
    (P : ℕ → Producer) : Type 0 where
  pub ahead : next ≤ claim
  pub window : claim ≤ next + size
  pub count : claim ≡ length log
  pub tags : (j : ℕ) → tag j ≤ claim
  pub fine : (i : ℕ) → Fine size claim next log tag payload (P i)
  pub unique : (i j c : ℕ) → holds (P i) ≡ some c → holds (P j) ≡ some c → i ≡ j
  pub ready :
      (c : ℕ)
      → next ≤ c
      → c < claim
      → Published size claim next log tag payload c ⊎ ((i : ℕ) × (i < n) × (holds (P i) ≡ some c))

-- A holder's slot is in the window, and not published.
pub Fine-holds :
    (size claim next : ℕ) (log : List Event) (tag : ℕ → ℕ) (payload : ℕ → Event) (p : Producer)
    (c : ℕ)
    → Fine size claim next log tag payload p
    → holds p ≡ some c
    → (next ≤ c) × (c < claim) × (tag (c % size) ≢ c + 1)
Fine-holds size claim next log tag payload (reserved e d) c f h =
    let same : d ≡ c = cc in rw (← same) (f.0, f.1, f.2)
Fine-holds size claim next log tag payload (wrote e d) c f h =
    let same : d ≡ c = cc in rw (← same) (f.0.0, f.0.1, f.0.2)
Fine-holds size claim next log tag payload p c f h = cc
