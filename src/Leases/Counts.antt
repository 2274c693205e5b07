-- ===== src/Leases/Counts.antt =====
-- The counts of the leases against the calls that take hook points and give them up.
use pin_bridge.Common.{
  ℕ, ◌+◌, ◌-◌, ◌<◌, ◌≤◌, ◌≡◌, refl, ap, ◌∙◌, List, [], ◌∷◌, Bool, true, ◌&&◌, ◌||◌, Option, none,
  some, length, ◌==◌, if◌then◌else◌, update, u32_mod, arith, by_cases, ℕ_discrete, Option-cases,
  inl, inr,
}
use pin_bridge.Leases.{
  HookLease, Leases, acquire, release, cancel_pending_hook_removal, lease_after, acquire_hook,
  lease_left, release_hook, queue_hook_removal, take_hook_removals, give_up, remove_hooks,
  apply_removals,
}

abbrev pub no_leases : Leases
no_leases = record { leases = λ a. none; pending = none }

-- A script takes a hook point or gives it up; the host works through the queue.
pub data Call : Type 0 where
  acquires : ℕ → Bool → Call
  gives_up : ℕ → Call
  applies : Bool → (ℕ → Bool) → Call

unfoldable pub step : Leases → Call → Leases
step s (acquires address created) = acquire_hook s address created
step s (gives_up address) = give_up s address
step s (applies connected removed) = apply_removals connected removed s

unfoldable pub run : Leases → List Call → Leases
run s [] = s
run s (c ∷ cs) = run (step s c) cs

-- How often the scripts hold an address, by the calls alone.
unfoldable pub held_after : ℕ → ℕ → Call → ℕ
held_after a n (acquires address created) = if address == a then n + 1 else n
held_after a n (gives_up address) = if address == a then n - 1 else n
held_after a n (applies connected removed) = n

unfoldable pub held : ℕ → ℕ → List Call → ℕ
held a n [] = n
held a n (c ∷ cs) = held a (held_after a n c) cs

-- The count that a lease says.
abbrev pub count : Option HookLease → ℕ
count none = 0
count (some l) = l.subscribers

count-lease_after :
    (l : Option HookLease) (created : Bool)
    → count l + 1 < u32_mod
    → count (some (lease_after l created)) ≡ count l + 1
unfolding lease_after acquire
count-lease_after none created h = omega arith
count-lease_after (some l) created h = omega arith

pub count-lease_left : (l : Option HookLease) → count (lease_left l).0 ≡ count l - 1
unfolding lease_left release
count-lease_left none = omega arith
count-lease_left (some l) = ground arith

pub remove-last : (l : Option HookLease) → (lease_left l).1 ≡ true → count (lease_left l).0 ≡ 0
unfolding lease_left release
remove-last none h = ground arith
remove-last (some l) h = ground arith

leases-cancel : (s : Leases) (a : ℕ) → (cancel_pending_hook_removal s a).0.leases ≡ s.leases
unfolding cancel_pending_hook_removal
leases-cancel s a = elim (Option-cases s.pending) [ inl e ↦ rw e refl | inr (p, e) ↦ rw e refl ]

leases-give_up :
    (s : Leases) (a : ℕ) → (give_up s a).leases ≡ update s.leases a (lease_left (s.leases a)).0
unfolding give_up release_hook queue_hook_removal
leases-give_up s a =
    let s' = (release_hook s a).0 in
    by_cases (λ (t : Leases). t.leases ≡ update s.leases a (lease_left (s.leases a)).0)
      (release_hook s a).1 (queue_hook_removal s' a) s' (λ q. refl) (λ q. refl)

leases-remove_hooks :
    (removed : ℕ → Bool) (s : Leases) (xs : List ℕ) → (remove_hooks removed s xs).leases ≡ s.leases
unfolding remove_hooks queue_hook_removal
leases-remove_hooks removed s [] = refl
leases-remove_hooks removed s (x ∷ xs) =
    leases-remove_hooks removed (if removed x then s else queue_hook_removal s x) xs
    ∙ by_cases (λ (t : Leases). t.leases ≡ s.leases) (removed x) s (queue_hook_removal s x)
        (λ q. refl) (λ q. refl)

pub count-update :
    (f : ℕ → Option HookLease) (a b : ℕ) (l : Option HookLease)
    → count (update f a l b) ≡ (if a == b then count l else count (f b))
count-update f a b l =
    by_cases (λ t. count t ≡ (if a == b then count l else count (f b))) (a == b) l (f b)
      (λ q. rw q refl) (λ q. rw q refl)

pub same_branch :
    (a b x y k : ℕ) → (a ≡ b → x ≡ y) → (if a == b then x else k) ≡ (if a == b then y else k)
same_branch a b x y k h = elim (ℕ_discrete a b) [
  | yes e ↦ ap (λ t. if a == b then t else k) (h e)
  | no ne ↦ ground arith
]

step-count :
    (s : Leases) (c : Call) (a : ℕ)
    → count (s.leases a) + 1 < u32_mod
    → count ((step s c).leases a) ≡ held_after a (count (s.leases a)) c
unfolding step held_after acquire_hook apply_removals take_hook_removals
step-count s (acquires address created) a small =
    let s' = (cancel_pending_hook_removal s address).0 in
    let owned = created || (cancel_pending_hook_removal s address).1 in
    let same : s'.leases ≡ s.leases = leases-cancel s address in
    ap
      (λ (f : ℕ → Option HookLease).
        count (update f address (some (lease_after (f address) owned)) a))
      same
    ∙ count-update s.leases address a (some (lease_after (s.leases address) owned))
    ∙ same_branch address a (count (some (lease_after (s.leases address) owned)))
        (count (s.leases a) + 1) (count (s.leases a))
        (λ e.
          count-lease_after (s.leases address) owned (rw e small)
          ∙ ap (λ b. count (s.leases b) + 1) e)
step-count s (gives_up address) a small =
    ap (λ (f : ℕ → Option HookLease). count (f a)) (leases-give_up s address)
    ∙ count-update s.leases address a (lease_left (s.leases address)).0
    ∙ same_branch address a (count (lease_left (s.leases address)).0) (count (s.leases a) - 1)
        (count (s.leases a))
        (λ e. count-lease_left (s.leases address) ∙ ap (λ b. count (s.leases b) - 1) e)
step-count s (applies connected removed) a small =
    ap (λ (f : ℕ → Option HookLease). count (f a))
      (leases-remove_hooks (λ address. connected && removed address) (take_hook_removals s).0
        (take_hook_removals s).1)

held_after-bound : (a n : ℕ) (c : Call) → held_after a n c ≤ n + 1
unfolding held_after
held_after-bound a n (acquires address created) = ground arith
held_after-bound a n (gives_up address) = ground arith
held_after-bound a n (applies connected removed) = omega arith

-- The scripts' holds of an address, as the calls left add at most one each.
pub run-count :
    (s : Leases) (cs : List Call) (a : ℕ)
    → count (s.leases a) + length cs + 1 < u32_mod
    → count ((run s cs).leases a) ≡ held a (count (s.leases a)) cs
unfolding run held
run-count s [] a small = refl
run-count s (c ∷ cs) a small =
    let one = step-count s c a (omega arith) in
    run-count (step s c) cs a (omega (arith, one, held_after-bound a (count (s.leases a)) c))
    ∙ ap (λ n. held a n cs) one
