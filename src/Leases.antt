-- ===== src/Leases.antt =====
-- bindings/rust/pinbridge-agent/src/scripting/decisions.rs: the leases of hook points and the queue
-- of those to remove; and what scripting/host.rs does with the queue. The scripts and `apply_stop_action`
-- run one after the other on the host's thread, so that each call is one step.
pub mod Counts
pub mod Holders
use pin_bridge.Common.{
  ℕ, ◌+◌, ◌-◌, min, List, [], ◌∷◌, ◌++◌, Bool, true, false, not, ◌&&◌, ◌||◌, Option, none, some,
  length, keep, ◌==◌, if◌then◌else◌, update, u32_mod,
}

pub record HookLease : Type 0 where
  pub subscribers : ℕ
  pub remove_at_zero : Bool

-- The statics HOOK_LEASES, a map by address, and PENDING_HOOK_REMOVALS.
pub record Leases : Type 0 where
  pub leases : ℕ → Option HookLease
  pub pending : Option (List ℕ)

-- `HookLease::acquire`, with `saturating_add`.
unfoldable pub acquire : HookLease → Bool → HookLease
acquire l created_by_scripts = record {
  subscribers = min (l.subscribers + 1) (u32_mod - 1);
  remove_at_zero = l.remove_at_zero || created_by_scripts;
}

-- `HookLease::release`: whether the hook point is to be removed.
unfoldable pub release : HookLease → HookLease × Bool
release l =
    let subscribers = l.subscribers - 1 in
    (record l { subscribers = subscribers }, (subscribers == 0) && l.remove_at_zero)

-- The queue without the address, and whether the address was in it.
unfoldable pub cancel_pending_hook_removal : Leases → ℕ → Leases × Bool
cancel_pending_hook_removal s address = elim (s.pending) [
  | none ↦ (s, false)
  | some pending ↦
      let kept = keep (λ a. not (a == address)) pending in
      (record s { pending = some kept }, not (length pending == length kept))
]

-- `entry(address).and_modify(..).or_insert(..)`.
unfoldable pub lease_after : Option HookLease → Bool → HookLease
unfolding acquire
lease_after none created = record { subscribers = 1; remove_at_zero = created }
lease_after (some l) created = acquire l created

unfoldable pub acquire_hook : Leases → ℕ → Bool → Leases
acquire_hook s address created_by_scripts =
    let (s', revived) = cancel_pending_hook_removal s address in
    record s' {
      leases =
          update s'.leases address
            (some (lease_after (s'.leases address) (created_by_scripts || revived)));
    }

-- The lease that stays, and the answer of `release_hook`.
unfoldable pub lease_left : Option HookLease → Option HookLease × Bool
unfolding release
lease_left none = (none, false)
lease_left (some l) =
    let (left, remove) = release l in (if left.subscribers == 0 then none else some left, remove)

unfoldable pub release_hook : Leases → ℕ → Leases × Bool
release_hook s address =
    let (left, remove) = lease_left (s.leases address) in
    (record s { leases = update s.leases address left }, remove)

unfoldable pub is_pending : ℕ → List ℕ → Bool
is_pending address [] = false
is_pending address (a ∷ rest) = (a == address) || is_pending address rest

unfoldable pub queued : Option (List ℕ) → ℕ → List ℕ
unfolding is_pending
queued none address = address ∷ []
queued (some pending) address =
    if is_pending address pending then pending else pending ++ address ∷ []

unfoldable pub queue_hook_removal : Leases → ℕ → Leases
queue_hook_removal s address = record s { pending = some (queued s.pending address) }

-- `unwrap_or_default` of the queue.
abbrev pub waiting : Option (List ℕ) → List ℕ
waiting none = []
waiting (some pending) = pending

unfoldable pub take_hook_removals : Leases → Leases × List ℕ
take_hook_removals s = (record s { pending = none }, waiting s.pending)

unfoldable pub has_hook_removals : Leases → Bool
has_hook_removals s = elim (waiting s.pending) [ [] ↦ false | a ∷ rest ↦ true ]

-- What every caller of `release_hook` does with its answer.
unfoldable pub give_up : Leases → ℕ → Leases
give_up s address =
    let (s', remove) = release_hook s address in
    if remove then queue_hook_removal s' address else s'

-- A removal that the client refuses is queued again; `removed` is its answer by address.
unfoldable pub remove_hooks : (ℕ → Bool) → Leases → List ℕ → Leases
remove_hooks removed s [] = s
remove_hooks removed s (address ∷ rest) =
    remove_hooks removed (if removed address then s else queue_hook_removal s address) rest

-- The hook points in `apply_stop_action`; without a connection nothing is removed.
unfoldable pub apply_removals : Bool → (ℕ → Bool) → Leases → Leases
apply_removals connected removed s =
    let (s', hook_removals) = take_hook_removals s in
    remove_hooks (λ address. connected && removed address) s' hook_removals
