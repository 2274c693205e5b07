-- ===== src/Channel.antt =====
-- Event lanes behind a Pin mutex: `EventChannel` of
-- bindings/rust/pinbridge-agent/src/event_channel.rs, and the global ring of ring.rs. What the
-- mutex answers is an argument: it is Pin's.
pub mod Submits
use pin_bridge.Common.{
  ℕ, zero, suc, ◌+◌, ◌-◌, List, [], ◌∷◌, Bool, true, false, Option, none, some, ltb, if◌then◌else◌,
  get_or, set, replicate, Run, returns, panics, run_then, ◌%◌,
}
use pin_bridge.Event.{Event, event_kind_count}
use pin_bridge.Ring.{Ring, push, page_into, drain_newest_into, add_u64}
use pin_bridge.Ring

-- `pb_pin_mutex_try_lock`: an error status, or whether the lock was acquired.
pub data TryLock : Type 0 where
  failed busy acquired : TryLock

abbrev pub spin_limit : ℕ
spin_limit = 1024

-- `lock_spin`, with the rounds that are left; `answers` are the mutex's in turn.
unfoldable pub lock_spin : ℕ → (ℕ → TryLock) → Bool
lock_spin zero answers = false
lock_spin (suc rounds) answers =
    let again = lock_spin rounds (λ i. answers (suc i)) in
    elim (answers 0) [ failed ↦ false | acquired ↦ true | busy ↦ again ]

-- `mutex` is whether `init` has stored a handle.
pub record Channel : Type 0 where
  pub ring : Ring
  pub mutex : Bool
  pub submitted : ℕ
  pub retained_total : ℕ

module _ (capacity : ℕ) where
  unfoldable pub new : Channel
  unfolding Ring.new
  new = record { ring = Ring.new capacity; mutex = false; submitted = 0; retained_total = 0 }

  -- `created` is whether `pb_pin_mutex_init` returned PB_OK.
  unfoldable pub init : Channel → Bool → Channel
  init c created = if created then record c { mutex = true } else c

  unfoldable pub submit : Channel → Event → TryLock → Channel
  submit c event lock =
      let counted = record c { submitted = add_u64 c.submitted 1 } in
      if c.mutex
      then elim lock [
        | failed ↦ counted
        | busy ↦ counted
        | acquired ↦
            let (ring, total) = push capacity c.ring event in
            record counted { ring = ring; retained_total = total }
      ]
      else counted

  unfoldable pub total : Channel → ℕ
  total c = c.retained_total

  unfoldable pub dropped : Channel → ℕ
  dropped c = c.submitted - c.retained_total

  -- `None` when there is no mutex or it stays busy; otherwise what was missed and the ring's
  -- total. The page is appended to the caller's buffer.
  unfoldable pub try_page :
      Channel → ℕ → ℕ → List Event → (ℕ → TryLock) → Run (Option (ℕ × ℕ) × List Event)
  try_page c after limit out answers =
      if c.mutex
      then if lock_spin spin_limit answers
        then run_then (page_into capacity c.ring after limit out)
            (λ (missed, page). returns (some (missed, c.ring.total), page))
        else returns (none, out)
      else returns (none, out)
