-- ===== src/Breaker/Table.antt =====
-- The breakpoint table: what the count of active breakpoints decides.
use pin_bridge.Common.{
  ℕ, zero, suc, ◌+◌, ◌-◌, ◌≤◌, ◌≡◌, ◌≢◌, refl, ap, subst, ◌∙◌, List, [], ◌∷◌, Bool, true, false,
  not, ◌&&◌, ◌||◌, Option, none, some, inl, inr, Bool-cases, Option-cases, arith, All, length,
  length-set, get_elem?, set, ◌%◌, leb, ◌==◌, if◌then◌else◌, by_cases, u32_mod, u64_mod, Result,
}
use pin_bridge.Stepper.{claim_breakpoint}
use pin_bridge.Trap.{PbStatus}
use pin_bridge.Breaker.{
  Slot, Breaker, any_active, find, hit_slot, count_hit, live_at, place, new_slot, stored, set_impl,
  exact_stop, redirect_arm, redirected, request_stop, release_redirect, take_hit, past_replay,
  step_replay, on_hit_slot, on_hit, no_hit_tid, max_breakpoints, retire, retired, remove,
}

abbrev pub live : List Slot → ℕ
live [] = 0
live (s ∷ ss) = (if s.active then 1 else 0) + live ss

-- The state of the first used slot with an id: none, or whether it is active.
abbrev pub state_of : ℕ → List Slot → Option Bool
state_of id [] = none
state_of id (s ∷ ss) =
    let rest = state_of id ss in if s.used && (s.id == id) then some s.active else rest

-- Removing a breakpoint that has fired leaves the number of active ones, but the table is changed.
retire-fired :
    (id : ℕ) (ss : List Slot)
    → state_of id ss ≡ some false
    → (ss' : List Slot) × (retire id ss ≡ some ss') × (live ss' ≡ live ss)
unfolding retire
retire-fired id [] e = absurd (cc e)
retire-fired id (s ∷ ss) e = elim (Bool-cases (s.used && (s.id == id))) [
  | inl here ↦
      let off : s.active ≡ false = ground arith in
      (record s { used = false; active = false } ∷ ss, rw here refl, rw off refl)
  | inr other ↦
      let (ss', found, same) = retire-fired id ss (ground arith) in
      (s ∷ ss', rw (other, found) refl, omega (arith, same))
]

-- An active slot is in use.
abbrev pub Owned : Slot → Type 0
Owned s = s.active ≡ true → s.used ≡ true

-- Removing one that is active takes one from the number.
retire-active :
    (id : ℕ) (ss : List Slot)
    → state_of id ss ≡ some true
    → All Owned ss
    → (ss' : List Slot) × (retire id ss ≡ some ss')
      × (live ss' + 1 ≡ live ss)
      × (length ss' ≡ length ss)
      × All Owned ss'
unfolding retire
retire-active id [] e h = absurd (cc e)
retire-active id (s ∷ ss) e h = elim (Bool-cases (s.used && (s.id == id))) [
  | inl here ↦
      let on : s.active ≡ true = ground arith in
      (
        record s { used = false; active = false } ∷ ss,
        rw here refl,
        rw on (omega arith),
        refl,
        ((λ o. absurd (ground (arith, o))), h.1),
      )
  | inr other ↦
      let (ss', found, same, size, own) = retire-active id ss (ground arith) h.1 in
      (s ∷ ss', rw (other, found) refl, omega (arith, same), ap suc size, (h.0, own))
]

-- The removal of a one-shot breakpoint that has already fired counts it out a second time. With one
-- other breakpoint active the count is then 0, and the lookup finds that breakpoint nowhere, though
-- it is still active: its instruction is not instrumented again.
pub fired_removal_hides :
    (b : Breaker) (id : ℕ)
    → b.mutex ≡ true
    → b.active_count ≡ live b.slots
    → live b.slots ≡ 1
    → state_of id b.slots ≡ some false
    → ((remove b true id).1 ≡ true)
      × (live (remove b true id).0.slots ≡ 1)
      × ((locked : Bool) (address : ℕ) → find (remove b true id).0 locked address ≡ none)
unfolding remove retired find any_active
fired_removal_hides b id there counted one fired =
    let (ss', found, same) = retire-fired id b.slots fired in
    let count : (b.active_count + u64_mod - 1) % u64_mod ≡ 0 = omega (arith, counted, one) in
    rw (there, found) (refl, same ∙ one, λ locked address. rw count refl)

-- The table has at most 64 slots, and the count is that of the active ones.
pub record Counted (b : Breaker) : Type 0 where
  pub table : length b.slots ≤ 64
  pub counted : b.active_count ≡ live b.slots
  pub owned : All Owned b.slots

live-le : (ss : List Slot) → live ss ≤ length ss
live-le [] = omega arith
live-le (s ∷ ss) = ground (arith, live-le ss)

live-set_hit :
    (ss : List Slot) (index : ℕ) (s : Slot)
    → get_elem? ss index ≡ some s
    → s.active ≡ true
    → live (set ss index (hit_slot s)) + (if s.one_shot then 1 else 0) ≡ live ss
unfolding hit_slot
live-set_hit [] index s e on = absurd (cc e)
live-set_hit (x ∷ xs) zero s e on =
    let same : x ≡ s = cc e in
    let once : x.one_shot ≡ s.one_shot = ap (λ (t : Slot). t.one_shot) same in
    let active : x.active ≡ true = ap (λ (t : Slot). t.active) same ∙ on in
    rw (on, active) (ground arith)
live-set_hit (x ∷ xs) (suc index) s e on = omega (arith, live-set_hit xs index s e on)

set_hit-Owned :
    (ss : List Slot) (index : ℕ) (s : Slot)
    → get_elem? ss index ≡ some s
    → All Owned ss
    → All Owned (set ss index (hit_slot s))
unfolding hit_slot
set_hit-Owned [] index s e h = tt
set_hit-Owned (x ∷ xs) zero s e h =
    let same : x ≡ s = cc e in
    let own : Owned s = subst Owned same h.0 in ((λ on. own (ground arith)), h.1)
set_hit-Owned (x ∷ xs) (suc index) s e h = (h.0, set_hit-Owned xs index s e h.1)

count_hit-Counted :
    (b : Breaker) (index : ℕ) (s : Slot)
    → get_elem? b.slots index ≡ some s
    → s.active ≡ true
    → Counted b
    → Counted (count_hit b index s)
unfolding count_hit
count_hit-Counted b index s e on v =
    let few = live-le b.slots in
    let after = live-set_hit b.slots index s e on in
    record {
      table = omega (arith, v.table, length-set b.slots index (hit_slot s));
      counted =
          by_cases (λ n. n ≡ live (set b.slots index (hit_slot s))) s.one_shot _ _
            (λ q.
              let one : live (set b.slots index (hit_slot s)) + 1 ≡ live b.slots =
                subst
                  (λ f. live (set b.slots index (hit_slot s)) + (if f then 1 else 0) ≡ live b.slots)
                  q after in
              omega (arith, v.counted, v.table, one))
            (λ q.
              let none_off : live (set b.slots index (hit_slot s)) + 0 ≡ live b.slots =
                subst
                  (λ f. live (set b.slots index (hit_slot s)) + (if f then 1 else 0) ≡ live b.slots)
                  q after in
              omega (arith, v.counted, none_off));
      owned = set_hit-Owned b.slots index s e v.owned;
    }

-- What only touches the other statics keeps the table.
redirect_arm-Counted :
    (b : Breaker) (is_64 : Bool) (tid address : ℕ)
    → Counted b
    → Counted (redirect_arm b is_64 tid address).0
unfolding redirect_arm
redirect_arm-Counted b is_64 tid address v =
    let State : Breaker × Bool → Type 0 = λ r. Counted r.0 in
    by_cases State (not b.stub || b.redirect_active) _ _ (λ q. v)
      (λ q.
        by_cases State (not is_64 && leb u32_mod address) _ _
          (λ u. record { table = v.table; counted = v.counted; owned = v.owned })
          (λ u. record { table = v.table; counted = v.counted; owned = v.owned }))

redirected-Counted :
    (set_ok : Bool) (r : Breaker × Bool) → Counted r.0 → Counted (redirected set_ok r)
unfolding redirected request_stop release_redirect
redirected-Counted set_ok (b, armed) v =
    by_cases Counted armed _ _
      (λ q.
        by_cases Counted set_ok _ _
          (λ u. record { table = v.table; counted = v.counted; owned = v.owned })
          (λ u. record { table = v.table; counted = v.counted; owned = v.owned }))
      (λ q. record { table = v.table; counted = v.counted; owned = v.owned })

exact_stop-Counted :
    (b : Breaker) (context is_64 set_ok : Bool) (tid address : ℕ)
    → Counted b
    → Counted (exact_stop b context is_64 set_ok tid address)
unfolding exact_stop request_stop
exact_stop-Counted b context is_64 set_ok tid address v =
    let noted : Breaker = record b { last_hit_tid = tid; last_hit_addr = address } in
    by_cases Counted context _ _
      (λ q. redirected-Counted set_ok (redirect_arm noted is_64 tid address) (
        redirect_arm-Counted noted is_64 tid address
          (record { table = v.table; counted = v.counted; owned = v.owned })))
      (λ q. record { table = v.table; counted = v.counted; owned = v.owned })

take_hit-Counted :
    (b : Breaker) (context is_64 set_ok : Bool) (thread : Option ℕ) (index : ℕ) (s : Slot)
    → get_elem? b.slots index ≡ some s
    → s.active ≡ true
    → Counted b
    → Counted (take_hit b context is_64 set_ok thread index s)
unfolding take_hit request_stop
take_hit-Counted b context is_64 set_ok none index s e on v =
    let w = count_hit-Counted b index s e on v in
    record { table = w.table; counted = w.counted; owned = w.owned }
take_hit-Counted b context is_64 set_ok (some tid) index s e on v =
    let w = count_hit-Counted b index s e on v in
    exact_stop-Counted
      (record (count_hit b index s) {
        stepper = (claim_breakpoint (count_hit b index s).stepper tid s.address).0;
      })
      context is_64 set_ok tid s.address
      (record { table = w.table; counted = w.counted; owned = w.owned })

past_replay-Counted :
    (b : Breaker) (context is_64 set_ok : Bool) (thread : Option ℕ) (index : ℕ) (s : Slot)
    → get_elem? b.slots index ≡ some s
    → s.active ≡ true
    → Counted b
    → Counted (past_replay b context is_64 set_ok thread index s)
unfolding past_replay
past_replay-Counted b context is_64 set_ok none index s e on v =
    take_hit-Counted b context is_64 set_ok none index s e on v
past_replay-Counted b context is_64 set_ok (some tid) index s e on v =
    let closed : Counted (record b { resume_skip_tid = no_hit_tid }) = record {
      table = v.table;
      counted = v.counted;
      owned = v.owned;
    } in
    by_cases Counted (not (b.resume_skip_tid == no_hit_tid) && (b.resume_skip_tid == tid)) _ _
      (λ q.
        by_cases Counted (b.resume_skip_addr == s.address) _ _ (λ u. closed)
          (λ u.
            take_hit-Counted (record b { resume_skip_tid = no_hit_tid }) context is_64 set_ok
              (some tid) index s e on closed))
      (λ q. take_hit-Counted b context is_64 set_ok (some tid) index s e on v)

step_replay-Counted :
    (b : Breaker) (thread : Option ℕ) (address : ℕ)
    → Counted b
    → Counted (step_replay b thread address).0 × ((step_replay b thread address).0.slots ≡ b.slots)
unfolding step_replay
step_replay-Counted b none address v = (v, refl)
step_replay-Counted b (some tid) address v =
    (record { table = v.table; counted = v.counted; owned = v.owned }, refl)

on_hit-Counted :
    (b : Breaker) (context is_64 set_ok : Bool) (thread : Option ℕ) (index : ℕ)
    → Counted b
    → Counted (on_hit b context is_64 set_ok thread index)
unfolding on_hit on_hit_slot
on_hit-Counted b context is_64 set_ok thread index v =
    by_cases Counted (leb max_breakpoints index) _ _ (λ q. v)
      (λ q. elim (Option-cases (get_elem? b.slots index)) [
        | inl out ↦ rw out v
        | inr (s, e) ↦
            let (w, kept) = step_replay-Counted b thread s.address v in
            rw e (
              by_cases Counted (not s.active) _ _ (λ u. v)
                (λ u.
                  by_cases Counted (step_replay b thread s.address).1 _ _ (λ z. w)
                    (λ z.
                      past_replay-Counted (step_replay b thread s.address).0 context is_64 set_ok
                        thread index s (ap (λ ss. get_elem? ss index) kept ∙ e) (ground arith) w)))
      ])

abbrev Placed : List Slot → Option (List Slot) → Type 0
Placed ss none = Unit
Placed ss (some ss') = (live ss' ≡ live ss + 1) × (length ss' ≡ length ss) × All Owned ss'

Placed-cons :
    (s : Slot) (ss : List Slot) (o : Option (List Slot))
    → Owned s
    → Placed ss o
    → Placed (s ∷ ss) (elim o [ none ↦ none | some ss' ↦ some (s ∷ ss') ])
Placed-cons s ss none h p = tt
Placed-cons s ss (some ss') h p = (omega (arith, p.0), ap suc p.1, (h, p.2))

place-Placed :
    (new : Slot) (ss : List Slot)
    → new.active ≡ true
    → new.used ≡ true
    → All Owned ss
    → Placed ss (place new ss)
unfolding place
place-Placed new [] on used h = tt
place-Placed new (s ∷ ss) on used h =
    by_cases (Placed (s ∷ ss)) (not s.used || not s.active) _ _
      (λ q.
        let off : s.active ≡ false = ground (arith, h.0) in
        (rw (on, off) (omega arith), refl, ((λ o. used), h.1)))
      (λ q. Placed-cons s ss (place new ss) h.0 (place-Placed new ss on used h.1))

stored-Counted :
    (b : Breaker) (o : Option (List Slot)) → Counted b → Placed b.slots o → Counted (stored b o).0
unfolding stored
stored-Counted b none v p = v
stored-Counted b (some ss') v p =
    let few = live-le b.slots in
    record {
      table = omega (arith, p.1, v.table);
      counted = omega (arith, v.counted, p.0, v.table);
      owned = p.2;
    }

retire-absent : (id : ℕ) (ss : List Slot) → state_of id ss ≡ none → retire id ss ≡ none
unfolding retire
retire-absent id [] e = refl
retire-absent id (s ∷ ss) e =
    let other : (s.used && (s.id == id)) ≡ false = ground arith in
    rw (other, retire-absent id ss (ground arith)) refl

set_impl-Counted :
    (b : Breaker) (locked : Bool) (address : ℕ) (one_shot : Bool)
    → Counted b
    → Counted (set_impl b locked address one_shot).0
unfolding set_impl
set_impl-Counted b locked address one_shot v =
    let State : Breaker × Result PbStatus ℕ → Type 0 = λ r. Counted r.0 in
    by_cases State (address == 0) _ _ (λ q. v)
      (λ q.
        by_cases State (not (b.mutex && locked)) _ _ (λ u. v)
          (λ u. elim (Option-cases (live_at address b.slots)) [
            | inr (id, there) ↦ rw there v
            | inl free ↦ rw free (
                stored-Counted b (place (new_slot (b.next_id % u32_mod) address one_shot) b.slots) v
                  (place-Placed (new_slot (b.next_id % u32_mod) address one_shot) b.slots refl refl
                    v.owned))
          ]))

-- The calls on the table, with what Pin answers.
pub data Call : Type 0 where
  sets : Bool → ℕ → Bool → Call
  hits : Bool → Bool → Bool → Option ℕ → ℕ → Call
  removes : Bool → ℕ → Call

unfoldable pub call : Breaker → Call → Breaker
call b (sets locked address one_shot) = (set_impl b locked address one_shot).0
call b (hits context is_64 set_ok thread index) = on_hit b context is_64 set_ok thread index
call b (removes locked id) = (remove b locked id).0

-- Only a breakpoint that is active, or none, is removed.
abbrev pub Careful : Breaker → Call → Type 0
Careful b (removes locked id) = state_of id b.slots ≢ some false
Careful b _ = Unit

-- A call that overlaps no other keeps the table of at most 64 slots, its count of active breakpoints, and the use of each
-- active slot, unless it removes a one-shot breakpoint that has fired.
pub call-Counted : (b : Breaker) (c : Call) → Counted b → Careful b c → Counted (call b c)
unfolding call remove retired
call-Counted b (sets locked address one_shot) v careful =
    set_impl-Counted b locked address one_shot v
call-Counted b (hits context is_64 set_ok thread index) v careful =
    on_hit-Counted b context is_64 set_ok thread index v
call-Counted b (removes locked id) v careful =
    by_cases (λ (r : Breaker × Bool). Counted r.0) (not (b.mutex && locked)) _ _ (λ q. v)
      (λ q. elim (Option-cases (state_of id b.slots)) [
        | inl absent ↦ rw (retire-absent id b.slots absent) v
        | inr (state, there) ↦ elim (Bool-cases state) [
          | inr off ↦ absurd (careful (there ∙ ap some off))
          | inl on ↦
              let (ss', found, one, size, own) =
                retire-active id b.slots (there ∙ ap some on) v.owned in
              let few = live-le b.slots in
              rw found (record {
                table = omega (arith, size, v.table);
                counted = omega (arith, v.counted, one, v.table);
                owned = own;
              })
        ]
      ])
