-- ===== src/Recorder/Protocol/Races.antt =====
-- Orders of steps in which an event that the program has taken on, or had room for, is not written.
use pin_bridge.Common.{
  ℕ, ◌+◌, ◌-◌, ◌≤◌, ◌<◌, ◌≡◌, refl, ◌∙◌, List, [], ◌∷◌, ◌++◌, Bool, true, false, arith, ltb, ◌==◌,
  u64_mod,
}
use pin_bridge.Event.{Event}
use pin_bridge.Recorder.Protocol.{
  idle, loaded, refused, goto, is_full, poll, compares, idle_check, idle_stopped, closed, System,
  produce, drain, Action, produces, drains, stops, step, run,
}
use pin_bridge.Recorder.Protocol.Submit.{records, after_record}
use pin_bridge.Recorder.Protocol.Finish.{turns_to}

stop_now :
    (size : ℕ) (s : System) (rest : List Action)
    → run size s (stops ∷ rest) ≡ run size (record s { armed = false }) rest
unfolding run step
stop_now size s rest = refl

abbrev pub stopping : List Action
stopping = stops ∷ drains ∷ drains ∷ drains ∷ []

abbrev pub recording : ℕ → Event → List Action
recording i e = let p = produces i e false in p ∷ p ∷ p ∷ p ∷ p ∷ p ∷ p ∷ p ∷ p ∷ stopping

-- The drainer loads CLAIM; a thread records an event; `stop` lowers ARMED; the drainer goes on.
abbrev pub late : ℕ → Event → List Action
late i e = drains ∷ recording i e

-- In a session with nothing left to drain, no thread inside `submit` and room in the slab, that
-- order closes the drainer with the event recorded and not drained, and neither DROPPED nor FAILED
-- tells of it.
pub late_record_is_lost :
    (size i : ℕ) (e : Event) (s : System)
    → s.place ≡ poll
    → s.producers i ≡ idle
    → s.armed ≡ true
    → s.in_flight ≡ 0
    → s.next ≡ s.claim
    → is_full size s.claim s.drained ≡ false
    → ((run size s (late i e)).place ≡ closed)
      × ((run size s (late i e)).claim ≡ s.claim + 1)
      × ((run size s (late i e)).log ≡ s.log ++ e ∷ [])
      × ((run size s (late i e)).drained ≡ s.drained)
      × ((run size s (late i e)).dropped ≡ s.dropped)
      × ((run size s (late i e)).failed ≡ s.failed)
      × ((run size s (late i e)).consumed ≡ s.consumed)
unfolding drain run
late_record_is_lost size i e s top stands on empty done room =
    let s1 : System = record s { place = compares s.claim } in
    let s2 : System = after_record size i e s1 in
    let s3 : System = record s2 { armed = false } in
    let none_left : ltb s.next s.claim ≡ false = ground arith in
    let quiet : s.in_flight + 1 - 1 == 0 ≡ true = ground arith in
    let ends : run size s (late i e) ≡ record s3 { place = closed } =
      turns_to size s poll s1 (recording i e) top refl
      ∙ records size i e s1 stands on stopping room
      ∙ stop_now size s2 (drains ∷ drains ∷ drains ∷ [])
      ∙ turns_to size s3 (compares s.claim) (record s3 { place = idle_check })
          (drains ∷ drains ∷ []) refl (rw none_left refl)
      ∙ turns_to size (record s3 { place = idle_check }) idle_check
          (record s3 { place = idle_stopped }) (drains ∷ []) refl refl
      ∙ turns_to size (record s3 { place = idle_stopped }) idle_stopped
          (record s3 { place = closed }) [] refl (rw quiet refl) in
    rw ends (refl, refl, refl, refl, refl, refl, refl)

-- A thread whose load of CLAIM is older than DRAINED, by less than 2^64 less the slab's size, is
-- refused, whatever room there is, and its event is dropped.
pub stale_load_is_refused :
    (size i c : ℕ) (e : Event) (spurious : Bool) (s : System)
    → s.producers i ≡ loaded e c
    → c < s.drained
    → s.drained < u64_mod
    → s.drained + size ≤ c + u64_mod
    → step size s (produces i e spurious) ≡ goto s i refused
unfolding step produce
stale_load_is_refused size i c e spurious s stands old small near =
    let full : is_full size c s.drained ≡ true = ground arith in rw stands (rw full refl)
