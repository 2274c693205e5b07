-- ===== src/Recorder/Protocol/Publish.antt =====
-- A slot is published, and a slot is drained.
use pin_bridge.Common.{
  ℕ, ◌+◌, ◌%◌, ◌≤◌, ◌<◌, ◌≡◌, ◌≢◌, refl, sym, ◌∙◌, ap, subst, inl, inr, List, none, some, arith,
  ℕ_discrete,
}
use pin_bridge.Event.{Event}
use pin_bridge.Recorder.Protocol.{
  Producer, idle, arrived, entered, live, loaded, roomy, refused, reserved, wrote, leaving, update,
}
use pin_bridge.Recorder.Protocol.Slots.{
  holds, update_self, update-ne, Owned, Fine, Slots, Fine-holds,
}
use pin_bridge.Recorder.Protocol.Moves.{update-elim, apart, others_hold}

module _ (size n claim next : ℕ) (log : List Event) (tag : ℕ → ℕ) (payload : ℕ → Event)
    (P : ℕ → Producer) (v : Slots size n claim next log tag payload P) where
  -- A thread publishes the slot that it has filled.
  module _ (i : ℕ) (e : Event) (c : ℕ) (stands : P i ≡ wrote e c) where
    mine : Fine size claim next log tag payload (wrote e c)
    mine = subst (Fine size claim next log tag payload) stands (v.fine i)

    held : holds (P i) ≡ some c
    held = ap holds stands

    abbrev pub tagged : ℕ → ℕ
    tagged = update tag (c % size) (c + 1)

    pub tagged-other : (d : ℕ) → next ≤ d → d < claim → c ≢ d → tagged (d % size) ≡ tag (d % size)
    tagged-other d lo hi ne =
        update-ne tag (c % size) (d % size) (c + 1)
          (apart size n claim next log tag payload P v c d mine.0.0 mine.0.1 lo hi ne)

    Owned-tagged :
        (d : Event) (k : ℕ)
        → c ≢ k
        → Owned size claim next log tag payload d k
        → Owned size claim next log tagged payload d k
    Owned-tagged d k ne f = (f.0, f.1, λ q. f.2 (sym (tagged-other k f.0 f.1 ne) ∙ q), f.3)

    Fine-tagged :
        (p : Producer)
        → ((d : ℕ) → holds p ≡ some d → c ≢ d)
        → Fine size claim next log tag payload p
        → Fine size claim next log tagged payload p
    Fine-tagged (reserved d k) other f = Owned-tagged d k (other k refl) f
    Fine-tagged (wrote d k) other f = (Owned-tagged d k (other k refl) f.0, f.1)
    Fine-tagged (roomy d k) other f = f
    Fine-tagged idle other f = tt
    Fine-tagged (arrived d) other f = tt
    Fine-tagged (entered d) other f = tt
    Fine-tagged (live d) other f = tt
    Fine-tagged (loaded d k) other f = f
    Fine-tagged refused other f = tt
    Fine-tagged leaving other f = tt

    -- The other threads hold what they held, and this one nothing.
    held_before :
        (j d : ℕ) → holds (update P i leaving j) ≡ some d → (i ≢ j) × (holds (P j) ≡ some d)
    held_before j d h = elim (ℕ_discrete i j) [
      | yes same ↦
          let gone : none ≡ some d = ap holds (sym (update_self P i j leaving same)) ∙ h in cc
      | no other ↦ (other, ap holds (sym (update-ne P i j leaving other)) ∙ h)
    ]

    pub publish : Slots size n claim next log tagged payload (update P i leaving)
    publish = record {
      ahead = v.ahead;
      window = v.window;
      count = v.count;
      tags = λ j. elim (ℕ_discrete (c % size) j) [
        | yes same ↦ rw (update_self tag (c % size) j (c + 1) same) (omega (arith, mine.0.1))
        | no other ↦ rw (update-ne tag (c % size) j (c + 1) other) (v.tags j)
      ];
      fine =
          update-elim (λ _ q. Fine size claim next log tagged payload q) P i leaving tt
            (λ j ne.
              Fine-tagged (P j)
                (λ d h. others_hold size n claim next log tag payload P v i j c d held ne h)
                (v.fine j));
      unique = λ j k d hj hk. v.unique j k d (held_before j d hj).1 (held_before k d hk).1;
      ready = λ d lo hi. elim (ℕ_discrete c d) [
        | yes same ↦ inl (
          rw (← same) (update_self tag (c % size) (c % size) (c + 1) refl),
          rw (← same) (mine.0.3 ∙ ap some (sym mine.1)),
        )
        | no other ↦ elim (v.ready d lo hi) [
          | inl done ↦ inl (tagged-other d lo hi other ∙ done.0, done.1)
          | inr (j, lt, h) ↦
              let ne : i ≢ j =
                λ q. let s : some c ≡ some d = sym held ∙ ap (λ k. holds (P k)) q ∙ h in other cc in
              inr (j, lt, ap holds (update-ne P i j leaving ne) ∙ h)
        ]
      ];
    }

  Fine-advance :
      (p : Producer)
      → holds p ≢ some next
      → Fine size claim next log tag payload p
      → Fine size claim (next + 1) log tag payload p
  Fine-advance (reserved d k) free f =
      let ne : k ≢ next = λ q. free (ap some q) in (omega (arith, f.0), f.1, f.2, f.3)
  Fine-advance (wrote d k) free f =
      let ne : k ≢ next = λ q. free (ap some q) in
      ((omega (arith, f.0.0), f.0.1, f.0.2, f.0.3), f.1)
  Fine-advance (roomy d k) free f = omega arith
  Fine-advance idle free f = tt
  Fine-advance (arrived d) free f = tt
  Fine-advance (entered d) free f = tt
  Fine-advance (live d) free f = tt
  Fine-advance (loaded d k) free f = f
  Fine-advance refused free f = tt
  Fine-advance leaving free f = tt

  -- The drainer passes a slot that nobody holds.
  pub advance :
      next < claim
      → ((j : ℕ) → holds (P j) ≢ some next)
      → Slots size n claim (next + 1) log tag payload P
  advance lt free = record {
    ahead = omega arith;
    window = omega (arith, v.window);
    count = v.count;
    tags = v.tags;
    fine = λ j. Fine-advance (P j) (free j) (v.fine j);
    unique = v.unique;
    ready = λ c lo hi. v.ready c (omega arith) hi;
  }

  -- Nobody holds a published slot.
  pub free_of_published :
      next < claim → tag (next % size) ≡ next + 1 → (j : ℕ) → holds (P j) ≢ some next
  free_of_published lt done j h =
      (Fine-holds size claim next log tag payload (P j) next (v.fine j) h).2 done
