-- ===== src/Leases/Holders.antt =====
-- A hook point that waits for its removal has no holder.
use pin_bridge.Common.{
  ℕ, ◌+◌, ◌-◌, ◌<◌, ◌≡◌, sym, ap, ◌∙◌, List, [], ◌∷◌, ◌++◌, Bool, true, false, not, ◌&&◌, ◌||◌,
  Option, none, some, length, keep, All, All-append, All-imp, ◌==◌, update, u32_mod, arith,
  by_cases, ℕ_discrete,
}
use pin_bridge.Leases.{
  HookLease, Leases, cancel_pending_hook_removal, lease_after, acquire_hook, lease_left,
  release_hook, is_pending, queued, queue_hook_removal, waiting, take_hook_removals, give_up,
  remove_hooks, apply_removals,
}
use pin_bridge.Leases.Counts.{
  no_leases, Call, acquires, gives_up, applies, step, run, held, count, count-lease_left,
  remove-last, count-update, same_branch, run-count,
}

-- What waits has no lease that counts a holder.
abbrev Free : Leases → Type 0
Free s = All (λ a. count (s.leases a) ≡ 0) (waiting s.pending)

-- The addresses of the list have no holder by these leases.
abbrev AllFree : (ℕ → Option HookLease) → List ℕ → Type 0
AllFree leases xs = All (λ a. count (leases a) ≡ 0) xs

queued-AllFree :
    (leases : ℕ → Option HookLease) (p : Option (List ℕ)) (a : ℕ)
    → AllFree leases (waiting p)
    → count (leases a) ≡ 0
    → AllFree leases (queued p a)
unfolding queued
queued-AllFree leases none a h e = (e, tt)
queued-AllFree leases (some p) a h e =
    by_cases (AllFree leases) (is_pending a p) p (p ++ a ∷ []) (λ q. h)
      (λ q. All-append (λ a. count (leases a) ≡ 0) p (a ∷ []) h (e, tt))

keep-AllFree :
    (leases : ℕ → Option HookLease) (a : ℕ) (l : Option HookLease) (xs : List ℕ)
    → AllFree leases xs
    → AllFree (update leases a l) (keep (λ b. not (b == a)) xs)
keep-AllFree leases a l [] h = tt
keep-AllFree leases a l (x ∷ xs) h = elim (ℕ_discrete x a) [
  | yes e ↦ let q : (x == a) ≡ true = ground arith in rw q (keep-AllFree leases a l xs h.1)
  | no ne ↦
      let q : (x == a) ≡ false = ground arith in
      let other : (a == x) ≡ false = ground arith in
      let free : count (update leases a l x) ≡ 0 = rw other h.0 in
      rw q (free, keep-AllFree leases a l xs h.1)
]

remove_hooks-AllFree :
    (removed : ℕ → Bool) (s : Leases) (xs : List ℕ)
    → AllFree s.leases (waiting s.pending)
    → AllFree s.leases xs
    → Free (remove_hooks removed s xs)
unfolding remove_hooks queue_hook_removal
remove_hooks-AllFree removed s [] h hs = h
remove_hooks-AllFree removed s (x ∷ xs) h hs =
    by_cases (λ t. Free (remove_hooks removed t xs)) (removed x) s (queue_hook_removal s x)
      (λ q. remove_hooks-AllFree removed s xs h hs.1)
      (λ q.
        remove_hooks-AllFree removed (queue_hook_removal s x) xs
          (queued-AllFree s.leases s.pending x h hs.0) hs.1)

acquire_hook-Free :
    (leases : ℕ → Option HookLease) (p : Option (List ℕ)) (address : ℕ) (created : Bool)
    → AllFree leases (waiting p)
    → Free (acquire_hook (record { leases = leases; pending = p }) address created)
unfolding acquire_hook cancel_pending_hook_removal
acquire_hook-Free leases none address created h = tt
acquire_hook-Free leases (some p) address created h =
    keep-AllFree leases address
      (some (
        lease_after (leases address)
          (created || not (length p == length (keep (λ a. not (a == address)) p)))))
      p h

give_up-Free : (s : Leases) (address : ℕ) → Free s → Free (give_up s address)
unfolding give_up release_hook queue_hook_removal
give_up-Free s address h =
    let left = (lease_left (s.leases address)).0 in
    let leases = update s.leases address left in
    let fewer : (a : ℕ) → count (s.leases a) ≡ 0 → count (leases a) ≡ 0 = λ a e.
      count-update s.leases address a left
      ∙ same_branch address a (count left) (count (s.leases a) - 1) (count (s.leases a))
          (λ q. count-lease_left (s.leases address) ∙ ap (λ b. count (s.leases b) - 1) q)
      ∙ ground arith in
    let h' : AllFree leases (waiting s.pending) =
      All-imp (λ a. count (s.leases a) ≡ 0) (λ a. count (leases a) ≡ 0) (waiting s.pending) fewer
        h in
    let here : count (leases address) ≡ count left =
      count-update s.leases address address left ∙ ground arith in
    let s' = (release_hook s address).0 in
    by_cases Free (release_hook s address).1 (queue_hook_removal s' address) s'
      (λ q. queued-AllFree leases s.pending address h' (here ∙ remove-last (s.leases address) q))
      (λ q. h')

step-Free : (s : Leases) (c : Call) → Free s → Free (step s c)
unfolding step apply_removals take_hook_removals
step-Free s (acquires address created) h = acquire_hook-Free s.leases s.pending address created h
step-Free s (gives_up address) h = give_up-Free s address h
step-Free s (applies connected removed) h =
    remove_hooks-AllFree (λ address. connected && removed address) (take_hook_removals s).0
      (take_hook_removals s).1 tt h

run-Free : (s : Leases) (cs : List Call) → Free s → Free (run s cs)
unfolding run
run-Free s [] h = h
run-Free s (c ∷ cs) h = run-Free (step s c) cs (step-Free s c h)

-- After fewer than 2^32 - 1 calls an address has a lease that counts just its holders, and no
-- address that waits for its removal has a holder.
pub run-held :
    (cs : List Call) (a : ℕ)
    → length cs + 1 < u32_mod
    → (count ((run no_leases cs).leases a) ≡ held a 0 cs)
      × All (λ b. held b 0 cs ≡ 0) (waiting (run no_leases cs).pending)
run-held cs a small = (
  run-count no_leases cs a (omega arith),
  All-imp (λ b. count ((run no_leases cs).leases b) ≡ 0) (λ b. held b 0 cs ≡ 0)
      (waiting (run no_leases cs).pending) (λ b e. sym (run-count no_leases cs b (omega arith)) ∙ e)
      (run-Free no_leases cs tt),
)
