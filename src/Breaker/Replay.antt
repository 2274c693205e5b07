-- ===== src/Breaker/Replay.antt =====
-- The resume over a breakpoint: the one re-execution is swallowed, and nothing else.
use pin_bridge.Common.{
  ℕ, ◌<◌, ◌≡◌, ◌≢◌, refl, sym, ap, ◌∙◌, Bool, true, false, not, ◌&&◌, ◌||◌, some, arith, get_elem?,
  get_elem?-set_self, lt_of_get_elem?, leb, ◌==◌, by_cases, u32_mod, subst,
}
use pin_bridge.Stepper.{Stepper, consume_start_replay, claim_breakpoint, release, end_suspend}
use pin_bridge.Breaker.{
  Slot, Breaker, no_hit_tid, max_breakpoints, hit_slot, count_hit, request_stop, redirect_arm,
  redirected, release_redirect, exact_stop, take_hit, past_replay, step_replay, on_hit_slot, on_hit,
  arm_resume_skip, command_resume,
}

-- A stop is asked for, and the slot counts the hit.
abbrev pub Hit : ℕ → Slot → Breaker → Type 0
Hit index s b = (b.hit_pending ≡ true) × (get_elem? b.slots index ≡ some (hit_slot s))

redirected-Hit :
    (index : ℕ) (s : Slot) (set_ok : Bool) (r : Breaker × Bool)
    → get_elem? r.0.slots index ≡ some (hit_slot s)
    → Hit index s (redirected set_ok r)
unfolding redirected request_stop release_redirect
redirected-Hit index s set_ok (b, armed) e =
    by_cases (Hit index s) armed _ _
      (λ q. by_cases (Hit index s) set_ok _ _ (λ u. (refl, e)) (λ u. (refl, e))) (λ q. (refl, e))

redirect_arm-slots :
    (b : Breaker) (is_64 : Bool) (tid address : ℕ)
    → (redirect_arm b is_64 tid address).0.slots ≡ b.slots
unfolding redirect_arm
redirect_arm-slots b is_64 tid address =
    let Same : Breaker × Bool → Type 0 = λ r. r.0.slots ≡ b.slots in
    by_cases Same (not b.stub || b.redirect_active) _ _ (λ q. refl)
      (λ q. by_cases Same (not is_64 && leb u32_mod address) _ _ (λ u. refl) (λ u. refl))

exact_stop-Hit :
    (index : ℕ) (s : Slot) (b : Breaker) (context is_64 set_ok : Bool) (tid address : ℕ)
    → get_elem? b.slots index ≡ some (hit_slot s)
    → Hit index s (exact_stop b context is_64 set_ok tid address)
unfolding exact_stop request_stop
exact_stop-Hit index s b context is_64 set_ok tid address e =
    let noted : Breaker = record b { last_hit_tid = tid; last_hit_addr = address } in
    by_cases (Hit index s) context _ _
      (λ q.
        redirected-Hit index s set_ok (redirect_arm noted is_64 tid address)
          (ap (λ ss. get_elem? ss index) (redirect_arm-slots noted is_64 tid address) ∙ e))
      (λ q. (refl, e))

take_hit-Hit :
    (b : Breaker) (context is_64 set_ok : Bool) (tid index : ℕ) (s : Slot)
    → get_elem? b.slots index ≡ some s
    → Hit index s (take_hit b context is_64 set_ok (some tid) index s)
unfolding take_hit count_hit
take_hit-Hit b context is_64 set_ok tid index s e =
    exact_stop-Hit index s
      (record (count_hit b index s) {
        stepper = (claim_breakpoint (count_hit b index s).stepper tid s.address).0;
      })
      context is_64 set_ok tid s.address
      (get_elem?-set_self b.slots index (hit_slot s) (lt_of_get_elem? b.slots index s e))

-- Without a step there is no start to replay.
step_replay-idle :
    (b : Breaker) (tid address : ℕ)
    → b.stepper.stepping ≡ false
    → step_replay b (some tid) address ≡ (b, false)
unfolding step_replay consume_start_replay
step_replay-idle b tid address e =
    let back : Stepper × Bool → Breaker × Bool = λ r. (record b { stepper = r.0 }, r.1) in
    let same : Breaker × Bool = (b, false) in
    by_cases (λ (r : Stepper × Bool). back r ≡ same)
      (not b.stepper.stepping
        || (not (b.stepper.step_tid == tid) || not (b.stepper.start_ip == address)))
      _ _ (λ q. refl) (λ q. absurd (ground (arith, e)))

on_hit-active :
    (b : Breaker) (context is_64 set_ok : Bool) (tid index : ℕ) (s : Slot)
    → index < max_breakpoints
    → get_elem? b.slots index ≡ some s
    → s.active ≡ true
    → b.stepper.stepping ≡ false
    → on_hit b context is_64 set_ok (some tid) index
      ≡ past_replay b context is_64 set_ok (some tid) index s
unfolding on_hit on_hit_slot
on_hit-active b context is_64 set_ok tid index s small e on calm =
    let inside : leb max_breakpoints index ≡ false = ground arith in
    let idle = step_replay-idle b tid s.address calm in
    rw (inside, e)
      (by_cases (λ r. r ≡ past_replay b context is_64 set_ok (some tid) index s) (not s.active) _ _
        (λ q. absurd (ground arith)) (λ q. rw idle refl))

-- Resumed with the stopped thread still at its breakpoint.
abbrev pub resumed_over : Breaker → Slot → Breaker
resumed_over b s = (command_resume (arm_resume_skip b (some s.address)) true).0

record Ready (b' : Breaker) (tid : ℕ) (b : Breaker) (address : ℕ) : Type 0 where
  slots : b'.slots ≡ b.slots
  pending : b'.hit_pending ≡ b.hit_pending
  stepping : b'.stepper.stepping ≡ b.stepper.stepping
  skip : b'.resume_skip_tid ≡ tid
  skip_addr : b'.resume_skip_addr ≡ address

release-stepping : (s : Stepper) → (release s).stepping ≡ s.stepping
unfolding release
release-stepping s =
    by_cases (λ (r : Stepper). r.stepping ≡ s.stepping) s.parked _ _ (λ q. refl) (λ q. refl)

resumed_over-Ready :
    (b : Breaker) (tid : ℕ) (s : Slot)
    → tid ≢ no_hit_tid
    → b.last_hit_tid ≡ tid
    → b.last_hit_addr ≡ s.address
    → Ready (resumed_over b s) tid b s.address
unfolding command_resume arm_resume_skip release_redirect end_suspend
resumed_over-Ready b tid s ne at_tid at_addr =
    let t : (not (b.last_hit_tid == no_hit_tid) && (s.address == b.last_hit_addr)) ≡ true =
      ground arith in
    rw t (record {
      slots = refl;
      pending = refl;
      stepping = release-stepping b.stepper;
      skip = at_tid;
      skip_addr = at_addr;
    })

-- A hit on a thread that does not wait for a re-execution is taken.
past_replay-other :
    (b : Breaker) (context is_64 set_ok : Bool) (tid index : ℕ) (s : Slot)
    → b.resume_skip_tid ≢ tid
    → past_replay b context is_64 set_ok (some tid) index s
      ≡ take_hit b context is_64 set_ok (some tid) index s
unfolding past_replay
past_replay-other b context is_64 set_ok tid index s ne =
    by_cases (λ r. r ≡ take_hit b context is_64 set_ok (some tid) index s)
      (not (b.resume_skip_tid == no_hit_tid) && (b.resume_skip_tid == tid)) _ _
      (λ q. absurd (ne (ground arith))) (λ q. refl)

past_replay-swallows :
    (b : Breaker) (context is_64 set_ok : Bool) (tid index : ℕ) (s : Slot)
    → b.resume_skip_tid ≡ tid
    → tid ≢ no_hit_tid
    → b.resume_skip_addr ≡ s.address
    → past_replay b context is_64 set_ok (some tid) index s
      ≡ record b { resume_skip_tid = no_hit_tid }
unfolding past_replay
past_replay-swallows b context is_64 set_ok tid index s e ne at =
    let waits : (not (b.resume_skip_tid == no_hit_tid) && (b.resume_skip_tid == tid)) ≡ true =
      ground arith in
    let here : (b.resume_skip_addr == s.address) ≡ true = ground arith in
    let closed : Breaker = record b { resume_skip_tid = no_hit_tid } in
    by_cases (λ r. r ≡ closed) (not (b.resume_skip_tid == no_hit_tid) && (b.resume_skip_tid == tid))
      _ _
      (λ q.
        by_cases (λ r. r ≡ closed) (b.resume_skip_addr == s.address) _ _ (λ u. refl)
          (λ u. absurd (ground arith)))
      (λ q. absurd (ground arith))

-- A thread was stopped at an active breakpoint and is resumed from there, with no step armed. Its
-- first execution of the breakpoint is swallowed: no slot changes and no stop is asked for. Its second
-- one is a hit that is counted and asks for a stop, and so is any execution by another thread right
-- after the resume.
pub resume_replays_once :
    (b : Breaker) (context is_64 set_ok : Bool) (tid index : ℕ) (s : Slot)
    → index < max_breakpoints
    → get_elem? b.slots index ≡ some s
    → s.active ≡ true
    → b.stepper.stepping ≡ false
    → tid ≢ no_hit_tid
    → b.last_hit_tid ≡ tid
    → b.last_hit_addr ≡ s.address
    → (((on_hit (resumed_over b s) context is_64 set_ok (some tid) index).slots ≡ b.slots)
        × ((on_hit (resumed_over b s) context is_64 set_ok (some tid) index).hit_pending
            ≡ b.hit_pending))
      × Hit index s (
          on_hit
            (on_hit (resumed_over b s) context is_64 set_ok (some tid) index)
            context
            is_64
            set_ok
            (some tid)
            index)
      × ((other : ℕ)
          → other ≢ tid
          → Hit index s (on_hit (resumed_over b s) context is_64 set_ok (some other) index))
resume_replays_once b context is_64 set_ok tid index s small e on calm ne at_tid at_addr =
    let r = resumed_over b s in
    let v = resumed_over-Ready b tid s ne at_tid at_addr in
    let there : get_elem? r.slots index ≡ some s = ap (λ ss. get_elem? ss index) v.slots ∙ e in
    let idle : r.stepper.stepping ≡ false = v.stepping ∙ calm in
    let after : Breaker = record r { resume_skip_tid = no_hit_tid } in
    let first : on_hit r context is_64 set_ok (some tid) index ≡ after =
      on_hit-active r context is_64 set_ok tid index s small there on idle
      ∙ past_replay-swallows r context is_64 set_ok tid index s v.skip ne v.skip_addr in
    let second : on_hit after context is_64 set_ok (some tid) index
        ≡ take_hit after context is_64 set_ok (some tid) index s =
      on_hit-active after context is_64 set_ok tid index s small there on idle
      ∙ past_replay-other after context is_64 set_ok tid index s (λ z. ne (sym z)) in
    (
      (
        ap (λ (x : Breaker). x.slots) first ∙ v.slots,
        ap (λ (x : Breaker). x.hit_pending) first ∙ v.pending,
      ),
      subst (λ x. Hit index s (on_hit x context is_64 set_ok (some tid) index)) (sym first)
          (subst (Hit index s) (sym second)
            (take_hit-Hit after context is_64 set_ok tid index s there)),
      (λ other differs.
          subst (Hit index s)
            (sym (
              on_hit-active r context is_64 set_ok other index s small there on idle
              ∙ past_replay-other r context is_64 set_ok other index s
                  (λ z. differs (sym z ∙ v.skip))))
            (take_hit-Hit r context is_64 set_ok other index s there)),
    )
