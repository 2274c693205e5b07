-- ===== src/CodeFetch/Readers.antt =====
-- `ReaderGuard`, the load of `POLICY` in `on_fetch`, and `replace_native`, as interleaved steps: when
-- is a snapshot freed?
use pin_bridge.Common.{
  ℕ, suc, ◌+◌, ◌-◌, ◌<◌, ◌≡◌, refl, sym, ap, subst, ◌∙◌, List, [], ◌∷◌, Bool, true, false, ◌⊎◌, inl,
  inr, arith, All, ◌==◌, if◌then◌else◌, update, by_cases, sum_over, sum_over-update,
  weight_of_sum_over, sum_over_zero,
}

-- Where a thread is in `on_fetch`: outside, counted in READERS, or with a snapshot in hand.
pub data Reader : Type 0 where
  outside entered : Reader
  holding : ℕ → Reader

-- Where the scripting thread is in `replace_native`: outside, waiting with the previous snapshot, or
-- past the wait.
pub data Publisher : Type 0 where
  resting : Publisher
  waiting freeing : ℕ → Publisher

-- Snapshots are numbered as they are made, 0 is the null pointer.
pub record Shared : Type 0 where
  pub policy : ℕ
  pub readers : ℕ
  pub threads : ℕ → Reader
  pub publisher : Publisher
  pub freed : ℕ → Bool
  pub generation : ℕ

unfoldable pub at_start : Shared
at_start = record {
  policy = 0;
  readers = 0;
  threads = λ i. outside;
  publisher = resting;
  freed = λ v. false;
  generation = 0;
}

-- The next atomic action of a thread in `on_fetch`, by thread, or of the publisher.
pub data Action : Type 0 where
  fetches : ℕ → Action
  publishes : Action

-- `enter`, the load, and `drop` of the guard.
unfoldable pub fetch_step : Shared → ℕ → Reader → Shared
fetch_step s i outside = record s { readers = s.readers + 1; threads = update s.threads i entered }
fetch_step s i entered = record s { threads = update s.threads i (holding s.policy) }
fetch_step s i (holding v) = record s {
  readers = s.readers - 1;
  threads = update s.threads i outside;
}

-- `drop` of the previous snapshot, unless it is null.
abbrev dropped : (ℕ → Bool) → ℕ → ℕ → Bool
dropped freed previous = if previous == 0 then freed else update freed previous true

-- The swap, one round of the wait, and the drop of the previous snapshot.
unfoldable pub publish_step : Shared → Publisher → Shared
publish_step s resting = record s { policy = suc s.policy; publisher = waiting s.policy }
publish_step s (waiting previous) =
    if s.readers == 0 then record s { publisher = freeing previous } else s
publish_step s (freeing previous) = record s {
  freed = dropped s.freed previous;
  generation = s.generation + 1;
  publisher = resting;
}

unfoldable pub step : Shared → Action → Shared
unfolding fetch_step publish_step
step s (fetches i) = fetch_step s i (s.threads i)
step s publishes = publish_step s s.publisher

unfoldable pub run : Shared → List Action → Shared
run s [] = s
run s (a ∷ as') = run (step s a) as'

-- A thread that READERS counts.
abbrev pub weight : Reader → ℕ
weight outside = 0
weight _ = 1

-- What the publisher is about to free, or has still to wait for, is older than the policy.
abbrev Older : ℕ → Publisher → Type 0
Older policy resting = Unit
Older policy (waiting v) = v < policy
Older policy (freeing v) = v < policy

-- The snapshots that a thread may hold.
abbrev Held : ℕ → Publisher → ℕ → Type 0
Held policy (waiting v) w = (w ≡ policy) ⊎ (w ≡ v)
Held policy resting w = w ≡ policy
Held policy (freeing v) w = w ≡ policy

abbrev HeldBy : Shared → Reader → Type 0
HeldBy s outside = Unit
HeldBy s entered = Unit
HeldBy s (holding w) = Held s.policy s.publisher w

Held-policy : (policy : ℕ) (p : Publisher) → Held policy p policy
Held-policy policy resting = refl
Held-policy policy (waiting v) = inl refl
Held-policy policy (freeing v) = refl

-- READERS counts the threads below `n`; no live snapshot is freed.
pub record Safe (n : ℕ) (s : Shared) : Type 0 where
  pub counted : s.readers ≡ sum_over weight n s.threads
  pub older : Older s.policy s.publisher
  pub held : (i : ℕ) → i < n → HeldBy s (s.threads i)
  pub kept : s.freed s.policy ≡ false
  pub waited : (v : ℕ) → (s.publisher ≡ waiting v) ⊎ (s.publisher ≡ freeing v) → s.freed v ≡ false
  pub past : (v : ℕ) → s.policy < v → s.freed v ≡ false

-- The thread of an action is one of `n`.
abbrev pub Within : ℕ → Action → Type 0
Within n (fetches i) = i < n
Within n publishes = Unit

module _ (n : ℕ) where
  moved-Safe :
      (s : Shared) (i readers : ℕ) (r : Reader)
      → i < n
      → Safe n s
      → readers + weight (s.threads i) ≡ s.readers + weight r
      → HeldBy s r
      → Safe n (record s { readers = readers; threads = update s.threads i r })
  moved-Safe s i readers r h v count own = record {
    counted = omega (arith, v.counted, sum_over-update weight n s.threads i r h);
    older = v.older;
    held = λ j k. by_cases (HeldBy s) (i == j) _ _ (λ q. own) (λ q. v.held j k);
    kept = v.kept;
    waited = v.waited;
    past = v.past;
  }

  fetch_step-Safe :
      (s : Shared) (i : ℕ) (r : Reader)
      → i < n
      → s.threads i ≡ r
      → Safe n s
      → Safe n (fetch_step s i r)
  unfolding fetch_step
  fetch_step-Safe s i outside h e v =
      moved-Safe s i (s.readers + 1) entered h v (rw e (omega arith)) tt
  fetch_step-Safe s i entered h e v =
      moved-Safe s i s.readers (holding s.policy) h v (rw e refl) (Held-policy s.policy s.publisher)
  fetch_step-Safe s i (holding w) h e v =
      let some_reader : 0 < s.readers =
        omega (arith, v.counted, weight_of_sum_over weight n s.threads i h, ap weight e) in
      moved-Safe s i (s.readers - 1) outside h v (rw e (omega arith)) tt

  swapped-HeldBy :
      (s : Shared) (r : Reader)
      → s.publisher ≡ resting
      → HeldBy s r
      → HeldBy (record s { policy = suc s.policy; publisher = waiting s.policy }) r
  swapped-HeldBy s outside e h = tt
  swapped-HeldBy s entered e h = tt
  swapped-HeldBy s (holding w) e h = inr (subst (λ p. Held s.policy p w) e h)

  quiet-HeldBy :
      (s : Shared) (p : Publisher) (r : Reader)
      → weight r ≡ 0
      → HeldBy (record s { publisher = p }) r
  quiet-HeldBy s p outside e = tt
  quiet-HeldBy s p entered e = absurd (omega arith)
  quiet-HeldBy s p (holding w) e = absurd (omega arith)

  freed-HeldBy :
      (s : Shared) (v generation : ℕ) (freed : ℕ → Bool) (r : Reader)
      → s.publisher ≡ freeing v
      → HeldBy s r
      → HeldBy (record s { freed = freed; generation = generation; publisher = resting }) r
  freed-HeldBy s v generation freed outside e h = tt
  freed-HeldBy s v generation freed entered e h = tt
  freed-HeldBy s v generation freed (holding w) e h = subst (λ p. Held s.policy p w) e h

  publish_step-Safe :
      (s : Shared) (p : Publisher) → s.publisher ≡ p → Safe n s → Safe n (publish_step s p)
  unfolding publish_step
  publish_step-Safe s resting e v = record {
    counted = v.counted;
    older = omega arith;
    held = λ j k. swapped-HeldBy s (s.threads j) e (v.held j k);
    kept = v.past (suc s.policy) (omega arith);
    waited = λ w c. elim c [
      | inl same ↦ let here : w ≡ s.policy = cc same in rw here v.kept
      | inr other ↦ absurd (cc other)
    ];
    past = λ w h. v.past w (omega arith);
  }
  publish_step-Safe s (waiting previous) e v =
      by_cases (Safe n) (s.readers == 0) _ _
        (λ q.
          let none_left : sum_over weight n s.threads ≡ 0 = ground (arith, v.counted) in
          record {
            counted = v.counted;
            older = subst (Older s.policy) e v.older;
            held = λ j k.
                quiet-HeldBy s (freeing previous) (s.threads j)
                  (omega (arith, weight_of_sum_over weight n s.threads j k, none_left));
            kept = v.kept;
            waited = λ w c. elim c [
              | inl other ↦ absurd (cc other)
              | inr same ↦ v.waited w (inl (e ∙ cc same))
            ];
            past = v.past;
          })
        (λ q. v)
  publish_step-Safe s (freeing previous) e v =
      let old : previous < s.policy = subst (Older s.policy) e v.older in
      let others : (w : ℕ) → previous < w → s.freed w ≡ false → dropped s.freed previous w ≡ false =
        λ w h f.
          by_cases (λ g. g w ≡ false) (previous == 0) s.freed (update s.freed previous true)
            (λ q. f) (λ q. ground arith) in
      record {
        counted = v.counted;
        older = tt;
        held = λ j k.
            freed-HeldBy s previous (s.generation + 1) (dropped s.freed previous) (s.threads j) e
              (v.held j k);
        kept = others s.policy old v.kept;
        waited = λ w c. elim c [ inl other ↦ absurd (cc other) | inr other ↦ absurd (cc other) ];
        past = λ w h. others w (omega arith) (v.past w h);
      }

  step-Safe : (s : Shared) (a : Action) → Within n a → Safe n s → Safe n (step s a)
  unfolding step
  step-Safe s (fetches i) h v = fetch_step-Safe s i (s.threads i) h refl v
  step-Safe s publishes h v = publish_step-Safe s s.publisher refl v

  run-Safe :
      (s : Shared) (actions : List Action)
      → All (Within n) actions
      → Safe n s
      → Safe n (run s actions)
  unfolding run
  run-Safe s [] h v = v
  run-Safe s (a ∷ rest) h v = run-Safe (step s a) rest h.1 (step-Safe s a h.0 v)

  at_start-Safe : Safe n at_start
  unfolding at_start
  at_start-Safe = record {
    counted = sym (sum_over_zero weight n outside refl);
    older = tt;
    held = λ i h. tt;
    kept = refl;
    waited = λ v c. refl;
    past = λ v h. refl;
  }

  Held-kept :
      (s : Shared) (p : Publisher) (w : ℕ)
      → s.publisher ≡ p
      → Safe n s
      → Held s.policy p w
      → s.freed w ≡ false
  Held-kept s resting w e v h = rw h v.kept
  Held-kept s (waiting u) w e v (inl h) = rw h v.kept
  Held-kept s (waiting u) w e v (inr h) = rw h (v.waited u (inl e))
  Held-kept s (freeing u) w e v h = rw h v.kept

  -- Under every interleaving of the fetches of `n` threads with the publisher, no thread holds a
  -- snapshot that has been freed, and the policy that a fetch would load is not freed either.
  pub snapshot_is_live :
      (actions : List Action)
      → All (Within n) actions
      → ((i w : ℕ)
          → i < n
          → (run at_start actions).threads i ≡ holding w
          → (run at_start actions).freed w ≡ false)
        × ((run at_start actions).freed (run at_start actions).policy ≡ false)
  snapshot_is_live actions within =
      let s = run at_start actions in
      let v = run-Safe at_start actions within at_start-Safe in
      ((λ i w h e. Held-kept s s.publisher w refl v (subst (HeldBy s) e (v.held i h))), v.kept)
