-- ===== src/Examples/Rings.antt =====
-- The ring, lane and global-ring theorems at concrete logs.
use pin_bridge.Common.{
  ℕ, zero, suc, ◌≡◌, refl, List, [], ◌∷◌, true, replicate, arith, take, drop, returns,
}
use pin_bridge.Event.{Event, empty}
use pin_bridge.Ring
use pin_bridge.Ring.{Ring}
use pin_bridge.Ring.Holds.{Holds, number, push_all, push_all-Holds}
use pin_bridge.Ring.Paging.{page_into_lem}
use pin_bridge.Channel
use pin_bridge.Channel.{TryLock, failed, busy, acquired, lock_spin, spin_limit}
use pin_bridge.Channel.Submits.{Submissions, submit_all, submit_all_lem}

abbrev numbered : ℕ → Event
numbered v = record empty { arg0 = v; kind = 2 }

-- The repository's own test: six events into a ring of four.
abbrev six : List Event
six = numbered 1 ∷ numbered 2 ∷ numbered 3 ∷ numbered 4 ∷ numbered 5 ∷ numbered 6 ∷ []

six_pushed : Ring
six_pushed = push_all 4 (Ring.new 4) six

six-Holds : Holds 4 six_pushed six
unfolding six_pushed
six-Holds = push_all-Holds 4 six (omega arith) (omega arith)

bounded_ring_reports_overwritten_cursor_entries :
    Ring.page_into 4 six_pushed 0 8 [] ≡ returns (2, drop 2 (number 0 six))
unfolding six_pushed push_all Ring.new Ring.push Ring.page_into replicate
bounded_ring_reports_overwritten_cursor_entries = refl

page_into_lem_example :
    Ring.page_into 4 six_pushed 4 2 [] ≡ returns (0, take 2 (drop 4 (number 0 six)))
page_into_lem_example = page_into_lem 4 six_pushed six 4 2 [] (omega arith) six-Holds

-- Three events, one of which met a held lock.
abbrev three : Submissions
three = (numbered 1, acquired) ∷ (numbered 2, busy) ∷ (numbered 3, acquired) ∷ []

abbrev third_try : ℕ → TryLock
third_try zero = busy
third_try (suc zero) = busy
third_try _ = acquired

submit_all_lem_example :
    let c = submit_all 4 (Channel.init 4 (Channel.new 4) true) three in
    Holds 4 c.ring (numbered 1 ∷ numbered 3 ∷ [])
    × (Channel.total 4 c ≡ 2)
    × (Channel.dropped 4 c ≡ 1)
submit_all_lem_example = submit_all_lem 4 three (omega arith) (omega arith)
