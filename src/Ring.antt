-- ===== src/Ring.antt =====
-- `Ring<CAPACITY>` of bindings/rust/pinbridge-agent/src/ring.rs: the bounded ring of events, with
-- its two readers. An index out of range panics; `u64` arithmetic wraps as in a release build.
pub mod Holds
pub mod Paging
use pin_bridge.Common.{
  ℕ, zero, suc, ◌+◌, ◌-◌, ◌%◌, ◌≤◌, List, [], ◌∷◌, ◌++◌, min, max, leb, if◌then◌else◌, get_elem?,
  set, replicate, Run, returns, panics, run_then, index_or_panic, u64_mod,
}
use pin_bridge.Event.{Event, empty}

pub record Ring : Type 0 where
  pub events : List Event
  pub total : ℕ

abbrev pub add_u64 : ℕ → ℕ → ℕ
add_u64 a b = (a + b) % u64_mod

abbrev pub sub_u64 : ℕ → ℕ → ℕ
sub_u64 a b = (a + u64_mod - b) % u64_mod

module _ (capacity : ℕ) where
  unfoldable pub new : Ring
  new = record { events = replicate capacity empty; total = 0 }

  -- The ring, and the sequence number that the event got.
  unfoldable pub push : Ring → Event → Ring × ℕ
  push r event =
      let total = add_u64 r.total 1 in
      (
        record r {
          events = set r.events (sub_u64 total 1 % capacity) (record event { sequence = total });
          total = total;
        },
        total,
      )

  -- `for sequence in first..=last { out.push(self.events[(sequence - 1) % CAPACITY]) }`, with the
  -- rounds that are left.
  unfoldable pub copy : ℕ → ℕ → Ring → List Event → Run (List Event)
  copy zero sequence r out = returns out
  copy (suc rounds) sequence r out =
      run_then (index_or_panic (get_elem? r.events (sub_u64 sequence 1 % capacity)))
        (λ e. copy rounds (sequence + 1) r (out ++ e ∷ []))

  unfoldable pub drain_newest_into : Ring → ℕ → List Event → Run (List Event)
  unfolding copy
  drain_newest_into r newest out =
      let retained = min r.total capacity in
      let taken = min retained newest in
      let first = r.total - taken in copy (r.total + 1 - (first + 1)) (first + 1) r out

  -- How many events the cursor missed, and the buffer with the page.
  unfoldable pub page_into : Ring → ℕ → ℕ → List Event → Run (ℕ × List Event)
  unfolding copy
  page_into r after limit out =
      let retained = min r.total capacity in
      let oldest = r.total - retained + 1 in
      let next = add_u64 after 1 in
      let first = max next oldest in
      let missed = first - next in
      let end = min (sub_u64 (add_u64 first limit) 1) r.total in
      run_then (if leb first r.total then copy (end + 1 - first) first r out else returns out)
        (λ page. returns (missed, page))
