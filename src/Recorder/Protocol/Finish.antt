-- ===== src/Recorder/Protocol/Finish.antt =====
-- The drainer after `stop`, once no thread is inside `submit`.
use pin_bridge.Common.{
  ℕ, zero, suc, ◌+◌, ◌-◌, ◌%◌, ◌≤◌, ◌<◌, ◌≡◌, refl, sym, ◌∙◌, ap, subst, List, [], ◌∷◌, ◌++◌, true,
  false, take_all, length, All, arith, ltb, ◌==◌, u64_mod,
}
use pin_bridge.Ring.Holds.{number, length-number}
use pin_bridge.Recorder.Protocol.{
  Place, poll, compares, matched, fetched, idle_check, idle_stopped, closed, System, drain, Action,
  drains, step, run,
}
use pin_bridge.Recorder.Protocol.Invariant.{
  Invariant, Published-of_calm, calm_of_empty, drain-Invariant,
}
use pin_bridge.Recorder.Protocol.Schedule.{Within, reached, invariant}

-- One step of the drainer, where it stands at `p`.
pub turns_to :
    (size : ℕ) (s : System) (p : Place) (t : System) (rest : List Action)
    → s.place ≡ p
    → drain size s p ≡ t
    → run size s (drains ∷ rest) ≡ run size t rest
unfolding run step
turns_to size s p t rest stands moved =
    ap (λ u. run size u rest) (ap (λ q. drain size s q) stands ∙ moved)

-- As many steps of the drainer.
abbrev pub turns : ℕ → List Action
turns zero = []
turns (suc k) = drains ∷ turns k

module _ (size : ℕ) (s : System) (top : s.place ≡ poll) where
  abbrev at_compare : System
  at_compare = record s { place = compares s.claim }

  abbrev at_match : System
  at_match = record s { place = matched }

  abbrev at_fetch : System
  at_fetch = record s { place = fetched (s.payload (s.next % size)) }

  abbrev advanced : System
  advanced = record s {
    written = s.written + 1;
    next = s.next + 1;
    drained = s.next + 1;
    consumed = s.consumed ++ s.payload (s.next % size) ∷ [];
    place = poll;
  }

  pub round :
      (rest : List Action)
      → s.next < s.claim
      → s.tag (s.next % size) ≡ s.next + 1
      → run size s (drains ∷ drains ∷ drains ∷ drains ∷ rest) ≡ run size advanced rest
  unfolding drain
  round rest lt fits =
      let more : ltb s.next s.claim ≡ true = ground arith in
      let good : s.tag (s.next % size) == s.next + 1 ≡ true = ground arith in
      turns_to size s poll at_compare _ top refl
      ∙ turns_to size at_compare (compares s.claim) at_match _ refl (rw more (rw good refl))
      ∙ turns_to size at_match matched at_fetch _ refl refl
      ∙ turns_to size at_fetch (fetched (s.payload (s.next % size))) advanced _ refl refl

  pub ending :
      (rest : List Action)
      → s.next ≡ s.claim
      → s.armed ≡ false
      → s.in_flight ≡ 0
      → run size s (drains ∷ drains ∷ drains ∷ drains ∷ rest)
        ≡ run size (record s { place = closed }) rest
  unfolding drain
  ending rest done off empty =
      let none_left : ltb s.next s.claim ≡ false = ground arith in
      let quiet : s.in_flight == 0 ≡ true = ground arith in
      turns_to size s poll at_compare _ top refl
      ∙ turns_to size at_compare (compares s.claim) (record s { place = idle_check }) _ refl
          (rw none_left refl)
      ∙ turns_to size (record s { place = idle_check }) idle_check
          (record s { place = idle_stopped }) _ refl (rw off refl)
      ∙ turns_to size (record s { place = idle_stopped }) idle_stopped (record s { place = closed })
          _ refl (rw quiet refl)

-- The drainer's steps keep the invariant, however many they are.
turns-Invariant :
    (size n k m : ℕ) (s : System) → Invariant size n k s → Invariant size n k (run size s (turns m))
unfolding run step
turns-Invariant size n k zero s v = v
turns-Invariant size n k (suc m) s v =
    turns-Invariant size n k m (drain size s s.place) (drain-Invariant size n k s v s.place v.knows)

-- `m` rounds for an event each, and one to end.
abbrev pub rounds : ℕ → List Action
rounds zero = turns 4
rounds (suc m) = drains ∷ drains ∷ drains ∷ drains ∷ rounds m

-- The drainer has ended with all that was logged.
abbrev pub Complete : System → System → Type 0
Complete s t =
    (t.place ≡ closed)
    × (t.drained ≡ s.claim)
    × (t.dropped ≡ s.dropped)
    × (t.failed ≡ false)
    × (t.consumed ≡ number 0 s.log)

rounds-Complete :
    (size n k m : ℕ) (s : System)
    → Invariant size n k s
    → s.place ≡ poll
    → s.armed ≡ false
    → s.in_flight ≡ 0
    → s.failed ≡ false
    → s.claim ≡ s.next + m
    → Complete s (run size s (rounds m))
unfolding run
rounds-Complete size n k zero s v top off empty ok left =
    rw (ending size s top [] (omega arith) off empty) (
      refl,
      omega (arith, v.released),
      refl,
      ok,
      v.reads ok
          ∙ (take_all s.next (number 0 s.log)
              (omega (arith, v.slots.count, length-number 0 s.log))).0,
    )
rounds-Complete size n k (suc m) s v top off empty ok left =
    let calm = calm_of_empty n s.producers (sym v.counted ∙ empty) in
    let fits =
      (Published-of_calm size n s.claim s.next s.log s.tag s.payload s.producers v.slots calm s.next
        (omega arith) (omega arith)).0 in
    let kept : Invariant size n k (advanced size s top) =
      subst (Invariant size n k) (round size s top [] (omega arith) fits)
        (turns-Invariant size n k 4 s v) in
    rw (round size s top (rounds m) (omega arith) fits)
      (rounds-Complete size n k m (advanced size s top) kept refl off empty ok (omega arith))

module _ (size n : ℕ) (actions : List Action) (within : All (Within n) actions)
    (bound : length actions ≤ u64_mod) where
  -- After any schedule of at most 2^64 steps that has stopped the session, left no thread inside
  -- `submit`, not set FAILED, and left the drainer at the top of its loop: four steps of the
  -- drainer for each reservation that is left, and four more, end its loop. It has then read every
  -- event that was reserved, in order, and dropped none of them.
  pub finishes :
      (reached size n actions within bound).place ≡ poll
      → (reached size n actions within bound).armed ≡ false
      → (reached size n actions within bound).in_flight ≡ 0
      → (reached size n actions within bound).failed ≡ false
      → Complete (reached size n actions within bound) (
          run size (reached size n actions within bound) (
            rounds (
              (reached size n actions within bound).claim
              - (reached size n actions within bound).drained)))
  finishes top off empty ok =
      let v = invariant size n actions within bound in
      rounds-Complete size n (length actions) _ _ v top off empty ok
        (omega (arith, v.released, v.slots.ahead))
