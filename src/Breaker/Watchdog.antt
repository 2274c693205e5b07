-- ===== src/Breaker/Watchdog.antt =====
-- The step watchdog: rounds of the breaker while no landing comes.
use pin_bridge.Common.{
  ℕ, zero, suc, ◌+◌, ◌-◌, ◌≤◌, ◌<◌, ◌≡◌, refl, sym, ap, subst, by_cases, ◌∙◌, Bool, true, false,
  not, ◌&&◌, ◌||◌, arith, ltb, ◌==◌,
}
use pin_bridge.Ring.{add_u64}
use pin_bridge.Stepper.{cancel, begin_suspend}
use pin_bridge.Breaker.{
  Breaker, arm_step_watchdog, watchdog, stop_pending, stop_completed, tick, Effects, no_effects,
}

-- Rounds in which Pin stops the threads when it is asked to.
unfoldable pub rounds : ℕ → Breaker → Bool → Breaker
rounds zero b locked = b
rounds (suc n) b locked = rounds n (tick b true locked).0 locked

-- The application runs and no hit is pending.
pub record Running (b : Breaker) : Type 0 where
  pub runs : b.stopped ≡ false
  pub calm : b.hit_pending ≡ false

watchdog-waits :
    (b : Breaker) (n : ℕ)
    → Running b
    → b.watchdog_ticks ≡ suc (suc n)
    → watchdog b ≡ record b { watchdog_ticks = suc n; hit_pending = false }
unfolding watchdog
watchdog-waits b n v e =
    let left : b.watchdog_ticks - 1 ≡ suc n = omega arith in
    let calm : (b.hit_pending || ((b.watchdog_ticks - 1 == 0) && not b.stopped)) ≡ false =
      rw v.calm (ground (arith, left)) in
    by_cases (λ r. r ≡ record b { watchdog_ticks = suc n; hit_pending = false })
      (not (ltb 0 b.watchdog_ticks)) _ _ (λ q. absurd (ground arith))
      (λ q i. record b { watchdog_ticks = left i; hit_pending = calm i })

watchdog-fires :
    (b : Breaker)
    → Running b
    → b.watchdog_ticks ≡ 1
    → watchdog b ≡ record b { watchdog_ticks = 0; hit_pending = true }
unfolding watchdog
watchdog-fires b v e =
    let left : b.watchdog_ticks - 1 ≡ 0 = omega arith in
    let fires : (b.hit_pending || ((b.watchdog_ticks - 1 == 0) && not b.stopped)) ≡ true =
      rw (v.calm, v.runs) (ground (arith, left)) in
    by_cases (λ r. r ≡ record b { watchdog_ticks = 0; hit_pending = true })
      (not (ltb 0 b.watchdog_ticks)) _ _ (λ q. absurd (ground arith))
      (λ q i. record b { watchdog_ticks = left i; hit_pending = fires i })

tick-waits :
    (b : Breaker) (n : ℕ) (locked : Bool)
    → Running b
    → b.watchdog_ticks ≡ suc (suc n)
    → (tick b true locked).0 ≡ record b { watchdog_ticks = suc n; hit_pending = false }
unfolding tick stop_pending
tick-waits b n locked v e = ap (λ x. (stop_pending x true locked).0) (watchdog-waits b n v e)

tick-quiet :
    (b : Breaker) (n : ℕ) (locked : Bool)
    → Running b
    → b.watchdog_ticks ≡ suc (suc n)
    → (tick b true locked).1 ≡ no_effects
unfolding tick stop_pending
tick-quiet b n locked v e = ap (λ x. (stop_pending x true locked).1) (watchdog-waits b n v e)

-- A completed stop of a running application, with the step given up.
abbrev pub Paused : Breaker → Breaker → Type 0
Paused b b' =
    (b'.stopped ≡ true)
    × (b'.stop_gen ≡ add_u64 b.stop_gen 1)
    × (b'.hit_pending ≡ false)
    × (b'.watchdog_ticks ≡ 0)
    × (b'.stepper ≡ cancel (begin_suspend b.stepper))

tick-fires :
    (b : Breaker) (locked : Bool)
    → Running b
    → b.watchdog_ticks ≡ 1
    → Paused b (tick b true locked).0
unfolding tick stop_pending stop_completed
tick-fires b locked v e =
    subst (λ x. Paused b (stop_pending x true locked).0) (sym (watchdog-fires b v e))
      (by_cases (λ (r : Breaker × Effects). Paused b r.0) (not b.stopped && true) _ _
        (λ q. (refl, refl, refl, refl, refl)) (λ q. absurd (ground (arith, v.runs))))

rounds-wait :
    (k n : ℕ) (b : Breaker) (locked : Bool)
    → Running b
    → b.watchdog_ticks ≡ suc (k + n)
    → rounds k b locked ≡ record b { watchdog_ticks = suc n; hit_pending = false }
unfolding rounds
rounds-wait zero n b locked v e =
    let here : b.watchdog_ticks ≡ suc n = e ∙ omega arith in
    λ i. record b { watchdog_ticks = here i; hit_pending = v.calm i }
rounds-wait (suc k) n b locked v e =
    let e' : b.watchdog_ticks ≡ suc (suc (k + n)) = e ∙ omega arith in
    ap (λ x. rounds k x locked) (tick-waits b (k + n) locked v e')
    ∙ rounds-wait k n (record b { watchdog_ticks = suc (k + n); hit_pending = false }) locked
        (record { runs = v.runs; calm = refl }) refl

rounds-last :
    (n : ℕ) (b : Breaker) (locked : Bool)
    → rounds (suc n) b locked ≡ (tick (rounds n b locked) true locked).0
unfolding rounds
rounds-last zero b locked = refl
rounds-last (suc n) b locked = rounds-last n (tick b true locked).0 locked

-- A step that is watched for `n + 1` rounds on a running application, while no hit comes: each of the
-- first `n` rounds leaves every static as it was but the count, which it takes one from, and has no
-- effect outside; in the round after them the application is paused, as Pin stops it, the stop
-- has a new generation, and the step and its candidates are given up.
pub watchdog_pauses :
    (b : Breaker) (n : ℕ) (locked : Bool)
    → Running b
    → ((k : ℕ)
        → k ≤ n
        → rounds k (arm_step_watchdog b (suc n)) locked ≡ record b { watchdog_ticks = suc (n - k) })
      × ((k : ℕ)
          → k < n
          → (tick (rounds k (arm_step_watchdog b (suc n)) locked) true locked).1 ≡ no_effects)
      × Paused b (rounds (suc n) (arm_step_watchdog b (suc n)) locked)
unfolding arm_step_watchdog
watchdog_pauses b n locked v =
    let armed : Breaker = record b { watchdog_ticks = suc n } in
    let running : Running armed = record { runs = v.runs; calm = v.calm } in
    let waits : (k : ℕ)
        → k ≤ n
        → rounds k armed locked ≡ record b { watchdog_ticks = suc (n - k) } =
      λ k le.
        let left : suc n ≡ suc (k + (n - k)) = omega arith in
        rounds-wait k (n - k) armed locked running left
        ∙ sym (λ i. record b { watchdog_ticks = suc (n - k); hit_pending = v.calm i }) in
    (
      waits,
      (λ k lt.
          let e : suc (n - k) ≡ suc (suc (n - k - 1)) = omega arith in
          ap (λ x. (tick x true locked).1) (waits k (omega arith))
          ∙ tick-quiet (record b { watchdog_ticks = suc (n - k) }) (n - k - 1) locked
              (record { runs = v.runs; calm = v.calm }) e),
      (let none_left : suc n ≡ suc (n + 0) = omega arith in
          let waited = rounds-wait n 0 armed locked running none_left in
          subst (Paused b) (sym (rounds-last n armed locked)) (
            subst (λ x. Paused b (tick x true locked).0) (sym waited)
              (tick-fires (record armed { watchdog_ticks = 1; hit_pending = false }) locked
                (record { runs = v.runs; calm = refl }) refl))),
    )
