-- ===== src/Recorder/Protocol/Moves.antt =====
-- What each kind of step does to the slab.
use pin_bridge.Common.{
  ℕ, ◌+◌, ◌%◌, ◌≤◌, ◌<◌, ◌≡◌, ◌≢◌, refl, sym, ◌∙◌, ap, subst, inl, inr, List, [], ◌∷◌, ◌++◌, some,
  arith, length-append, ℕ_discrete, mod-ne_window,
}
use pin_bridge.Event.{Event}
use pin_bridge.Recorder.Protocol.{
  Producer, idle, arrived, entered, live, loaded, roomy, refused, reserved, wrote, leaving, update,
}
use pin_bridge.Recorder.Protocol.Slots.{
  holds, number-old, number-new, update_self, update-ne, Owned, Fine, Slots, Fine-holds,
}

-- A predicate on the threads after one of them has moved.
pub update-elim {ℓ} :
    (T : ℕ → Producer → Type ℓ) (P : ℕ → Producer) (i : ℕ) (p : Producer)
    → T i p
    → ((j : ℕ) → i ≢ j → T j (P j))
    → (j : ℕ) → T j (update P i p j)
update-elim T P i p mine others j = elim (ℕ_discrete i j) [
  | yes same ↦ rw (update_self P i j p same, ← same) mine
  | no other ↦ rw (update-ne P i j p other) (others j other)
]

holds-update :
    (P : ℕ → Producer) (i : ℕ) (p : Producer)
    → holds (P i) ≡ holds p
    → (j : ℕ) → holds (update P i p j) ≡ holds (P j)
holds-update P i p same = update-elim (λ j q. holds q ≡ holds (P j)) P i p (sym same) (λ j _. refl)

module _ (size n claim next : ℕ) (log : List Event) (tag : ℕ → ℕ) (payload : ℕ → Event)
    (P : ℕ → Producer) (v : Slots size n claim next log tag payload P) where
  -- A thread that moves without touching the slab.
  pub relabel :
      (i : ℕ) (p : Producer)
      → holds (P i) ≡ holds p
      → Fine size claim next log tag payload p
      → Slots size n claim next log tag payload (update P i p)
  relabel i p same f = record {
    ahead = v.ahead;
    window = v.window;
    count = v.count;
    tags = v.tags;
    fine = update-elim (λ _ q. Fine size claim next log tag payload q) P i p f (λ j _. v.fine j);
    unique = λ j k c hj hk.
        v.unique j k c (sym (holds-update P i p same j) ∙ hj)
          (sym (holds-update P i p same k) ∙ hk);
    ready = λ c lo hi. elim (v.ready c lo hi) [
      | inl done ↦ inl done
      | inr (j, lt, h) ↦ inr (j, lt, holds-update P i p same j ∙ h)
    ];
  }

  -- Two slots in the window are different slots.
  pub apart : (c d : ℕ) → next ≤ c → c < claim → next ≤ d → d < claim → c ≢ d → c % size ≢ d % size
  apart c d lc hc ld hd ne =
      mod-ne_window size next c d lc (omega (arith, v.window)) ld (omega (arith, v.window)) ne

  -- Another thread holds another slot.
  pub others_hold : (i j c d : ℕ) → holds (P i) ≡ some c → i ≢ j → holds (P j) ≡ some d → c ≢ d
  others_hold i j c d hi ne hj e = ne (v.unique i j c hi (hj ∙ ap some (sym e)))

  Fine-grow :
      (e : Event) (p : Producer)
      → Fine size claim next log tag payload p
      → Fine size (claim + 1) next (log ++ e ∷ []) tag payload p
  Fine-grow e (reserved d c) f =
      (f.0, omega (arith, f.1), f.2, number-old log e c (omega (arith, f.1, v.count)) ∙ f.3)
  Fine-grow e (wrote d c) f = (
    (
      f.0.0,
      omega (arith, f.0.1),
      f.0.2,
      number-old log e c (omega (arith, f.0.1, v.count)) ∙ f.0.3,
    ),
    f.1,
  )
  Fine-grow e (roomy d c) f = f
  Fine-grow e idle f = tt
  Fine-grow e (arrived d) f = tt
  Fine-grow e (entered d) f = tt
  Fine-grow e (live d) f = tt
  Fine-grow e (loaded d c) f = omega arith
  Fine-grow e refused f = tt
  Fine-grow e leaving f = tt

  -- The compare-exchange takes the next slot for `e`.
  module _ (i : ℕ) (e : Event) (stands : P i ≡ roomy e claim) where
    nobody : (j : ℕ) → holds (P j) ≢ some claim
    nobody j h =
        omega (arith, (Fine-holds size claim next log tag payload (P j) claim (v.fine j) h).1)

    room : claim < next + size
    room = subst (Fine size claim next log tag payload) stands (v.fine i)

    reserve_unique :
        (j k c : ℕ)
        → holds (update P i (reserved e claim) j) ≡ some c
        → holds (update P i (reserved e claim) k) ≡ some c
        → j ≡ k
    reserve_unique j k c hj hk = elim (ℕ_discrete i j) [
      | yes ij ↦ elim (ℕ_discrete i k) [
        | yes ik ↦ omega arith
        | no nk ↦
            let here : claim ≡ c = ground (arith, update_self P i j (reserved e claim) ij) in
            absurd (
              nobody k
                (ap holds (sym (update-ne P i k (reserved e claim) nk)) ∙ hk ∙ ap some (sym here)))
      ]
      | no nj ↦ elim (ℕ_discrete i k) [
        | yes ik ↦
            let here : claim ≡ c = ground (arith, update_self P i k (reserved e claim) ik) in
            absurd (
              nobody j
                (ap holds (sym (update-ne P i j (reserved e claim) nj)) ∙ hj ∙ ap some (sym here)))
        | no nk ↦
            v.unique j k c (ap holds (sym (update-ne P i j (reserved e claim) nj)) ∙ hj)
              (ap holds (sym (update-ne P i k (reserved e claim) nk)) ∙ hk)
      ]
    ]

    still : (j c : ℕ) → holds (P j) ≡ some c → holds (update P i (reserved e claim) j) ≡ some c
    still j c h = elim (ℕ_discrete i j) [
      | yes same ↦ let q : P j ≡ roomy e claim = rw same at stands in ground arith
      | no other ↦ rw (update-ne P i j (reserved e claim) other) h
    ]

    pub reserve :
        i < n
        → Slots size n (claim + 1) next (log ++ e ∷ []) tag payload (update P i (reserved e claim))
    reserve lt = record {
      ahead = omega (arith, v.ahead);
      window = omega (arith, room);
      count = omega (arith, v.count, length-append log (e ∷ []));
      tags = λ j. omega (arith, v.tags j);
      fine =
          update-elim (λ _ q. Fine size (claim + 1) next (log ++ e ∷ []) tag payload q) P i
            (reserved e claim)
            (
              v.ahead,
              omega arith,
              λ q. omega (arith, v.tags (claim % size)),
              number-new log e claim v.count,
            )
            (λ j _. Fine-grow e (P j) (v.fine j));
      unique = reserve_unique;
      ready = λ c lo hi. elim (ℕ_discrete c claim) [
        | yes newest ↦
            inr (i, lt, ap holds (update_self P i i (reserved e claim) refl) ∙ ap some (sym newest))
        | no older ↦ elim (v.ready c lo (omega arith)) [
          | inl done ↦ inl (done.0, number-old log e c (omega (arith, v.count)) ∙ done.1)
          | inr (j, lt', h) ↦ inr (j, lt', still j c h)
        ]
      ];
    }

  -- A thread fills the slot that it has reserved.
  module _ (i : ℕ) (e : Event) (c : ℕ) (stands : P i ≡ reserved e c) where
    owned : Owned size claim next log tag payload e c
    owned = subst (Fine size claim next log tag payload) stands (v.fine i)

    abbrev pub filled : ℕ → Event
    filled = update payload (c % size) (record e { sequence = c + 1 })

    Fine-filled :
        (j : ℕ) (p : Producer)
        → ((d : ℕ) → holds p ≡ some d → c ≢ d)
        → Fine size claim next log tag payload p
        → Fine size claim next log tag filled p
    Fine-filled j (wrote d k) other f = (
      f.0,
      update-ne payload (c % size) (k % size) _
            (apart c k owned.0 owned.1 f.0.0 f.0.1 (other k refl))
          ∙ f.1,
    )
    Fine-filled j (reserved d k) other f = f
    Fine-filled j (roomy d k) other f = f
    Fine-filled j idle other f = tt
    Fine-filled j (arrived d) other f = tt
    Fine-filled j (entered d) other f = tt
    Fine-filled j (live d) other f = tt
    Fine-filled j (loaded d k) other f = f
    Fine-filled j refused other f = tt
    Fine-filled j leaving other f = tt

    held : holds (P i) ≡ some c
    held = ap holds stands

    pub write : Slots size n claim next log tag filled (update P i (wrote e c))
    write =
        let same : holds (P i) ≡ holds (wrote e c) = held in
        record {
          ahead = v.ahead;
          window = v.window;
          count = v.count;
          tags = v.tags;
          fine =
              update-elim (λ _ q. Fine size claim next log tag filled q) P i (wrote e c)
                (owned, update_self payload (c % size) (c % size) _ refl)
                (λ j ne. Fine-filled j (P j) (λ d h. others_hold i j c d held ne h) (v.fine j));
          unique = λ j k d hj hk.
              v.unique j k d (sym (holds-update P i (wrote e c) same j) ∙ hj)
                (sym (holds-update P i (wrote e c) same k) ∙ hk);
          ready = λ d lo hi. elim (v.ready d lo hi) [
            | inl done ↦
                let other : c ≢ d = λ q. owned.2 (rw (← q) at done.0) in
                inl (
                  done.0,
                  done.1
                      ∙ ap some (
                          sym (
                            update-ne payload (c % size) (d % size) _
                              (apart c d owned.0 owned.1 lo hi other))),
                )
            | inr (j, lt, h) ↦ inr (j, lt, holds-update P i (wrote e c) same j ∙ h)
          ];
        }
