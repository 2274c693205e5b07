-- ===== src/Telemetry/Counts.antt =====
-- What the global ring holds and counts after any sequence of submissions.
use pin_bridge.Common.{
  ℕ, suc, ◌+◌, ◌-◌, ◌≤◌, ◌<◌, ◌≡◌, refl, ◌∙◌, ap, List, [], ◌∷◌, ◌++◌, true, false, none, some,
  arith, ◌⊎◌, inl, inr, Bool-cases, length, length-append, append-nil, append_assoc, min, drop,
  u64_mod, returns, get_elem?, lt_of_get_elem?, get_or_of_get_elem?, get_elem?-replicate, get_or,
  length-set, length-replicate, get_elem?-set_self, get_elem?-set_ne, ◌==◌, if◌then◌else◌,
  ℕ_discrete,
}
use Prim.Native.Nat.add
use pin_bridge.Event.{Event, event_kind_count}
use pin_bridge.Ring.{add_u64}
use pin_bridge.Ring.Holds.{number, Holds, new-Holds, push-Holds}
use pin_bridge.Ring.Paging.{drain_newest_into_lem}
use pin_bridge.Channel.{TryLock, failed, busy, acquired, lock_spin, spin_limit}
use pin_bridge.Channel.Submits.{Submissions, landed, length-landed, landed-cons}
use pin_bridge.Telemetry.{
  Telemetry, ring_capacity, fresh, init, count_kind, submit, try_drain_newest, kind_count,
}

pub submit_all : Telemetry → Submissions → Telemetry
submit_all t [] = t
submit_all t ((e, lock) ∷ s) = submit_all (submit t e lock) s

-- The submissions of a kind, whether they got the lock or not.
abbrev pub of_kind : ℕ → Submissions → ℕ
of_kind k [] = 0
of_kind k ((e, lock) ∷ s) = if e.kind == k then suc (of_kind k s) else of_kind k s

-- One count more for the kind of the event, and no other.
count_kind_lem :
    (counters : List ℕ) (kind k n : ℕ)
    → length counters ≡ event_kind_count
    → n + 1 < u64_mod
    → get_elem? counters k ≡ some n
    → get_elem? (count_kind counters kind) k ≡ some (if kind == k then suc n else n)
unfolding count_kind
count_kind_lem counters kind k n size small h = elim (ℕ_discrete kind k) [
  | yes same ↦ ground (
    arith,
    lt_of_get_elem? counters k n h,
    get_or_of_get_elem? counters kind n 0,
    get_elem?-set_self counters kind (suc n),
  )
  | no other ↦
      ground (arith, get_elem?-set_ne counters kind k (add_u64 (get_or counters kind 0) 1) other)
]

length-count_kind :
    (counters : List ℕ) (kind : ℕ) → length (count_kind counters kind) ≡ length counters
unfolding count_kind
length-count_kind counters kind =
    ground (arith, length-set counters kind (add_u64 (get_or counters kind 0) 1))

-- The ring after submissions that landed `log`, with `counts k` of kind `k` among the attempts.
pub record After (t : Telemetry) (log : List Event) (submitted : ℕ) (counts : ℕ → ℕ) : Type 0 where
  pub ready : t.mutex ≡ true
  pub holds : Holds ring_capacity t.ring log
  pub edge : t.ring_total ≡ length log
  pub attempts : t.total_seq ≡ submitted
  pub slots : length t.kind_counters ≡ event_kind_count
  pub counters :
      (k : ℕ)
      → k < event_kind_count
      → (get_elem? t.kind_counters k ≡ some (counts k)) × (counts k ≤ submitted)

init-After : After (init fresh true) [] 0 (λ k. 0)
unfolding init fresh
init-After = record {
  ready = refl;
  holds = new-Holds ring_capacity;
  edge = refl;
  attempts = refl;
  slots = length-replicate event_kind_count 0;
  counters = λ k h. (get_elem?-replicate event_kind_count k 0 h, omega arith);
}

-- The counters after one attempt.
module _ (t : Telemetry) (log : List Event) (submitted : ℕ) (counts : ℕ → ℕ) (e : Event)
    (small : submitted + 1 < u64_mod) (v : After t log submitted counts) where
  counted :
      (k : ℕ)
      → k < event_kind_count
      → (get_elem? (count_kind t.kind_counters e.kind) k
          ≡ some (if e.kind == k then suc (counts k) else counts k))
        × ((if e.kind == k then suc (counts k) else counts k) ≤ submitted + 1)
  counted k h =
      let (c, le) = v.counters k h in
      (count_kind_lem t.kind_counters e.kind k (counts k) v.slots (omega arith) c, ground arith)

  submit-After :
      (lock : TryLock)
      → length log + 1 < u64_mod
      → After
          (submit t e lock)
          (log ++ landed ((e, lock) ∷ []))
          (submitted + 1)
          (λ k. if e.kind == k then suc (counts k) else counts k)
  unfolding submit
  submit-After acquired fits =
      let (h, n) = push-Holds ring_capacity t.ring log e (omega arith) fits v.holds in
      rw v.ready (record {
        ready = refl;
        holds = h;
        edge = omega (arith, length-append log (e ∷ []));
        attempts = omega (arith, v.attempts);
        slots = length-count_kind t.kind_counters e.kind ∙ v.slots;
        counters = counted;
      })
  submit-After failed fits =
      rw (v.ready, append-nil log)
        (record {
          ready = refl;
          holds = v.holds;
          edge = v.edge;
          attempts = omega (arith, v.attempts);
          slots = length-count_kind t.kind_counters e.kind ∙ v.slots;
          counters = counted;
        })
  submit-After busy fits =
      rw (v.ready, append-nil log)
        (record {
          ready = refl;
          holds = v.holds;
          edge = v.edge;
          attempts = omega (arith, v.attempts);
          slots = length-count_kind t.kind_counters e.kind ∙ v.slots;
          counters = counted;
        })

After-counts :
    (t : Telemetry) (log : List Event) (n m : ℕ) (f g : ℕ → ℕ)
    → n ≡ m
    → ((k : ℕ) → f k ≡ g k)
    → After t log n f
    → After t log m g
After-counts t log n m f g e same v = record {
  ready = v.ready;
  holds = v.holds;
  edge = v.edge;
  attempts = v.attempts ∙ e;
  slots = v.slots;
  counters = λ k h. rw (← same k, ← e) (v.counters k h);
}

of_kind-cons :
    (e : Event) (lock : TryLock) (s : Submissions) (counts : ℕ → ℕ) (k : ℕ)
    → (if e.kind == k then suc (counts k) else counts k) + of_kind k s
      ≡ counts k + of_kind k ((e, lock) ∷ s)
of_kind-cons e lock s counts k = ground arith

submit_all-After :
    (s : Submissions) (t : Telemetry) (log : List Event) (submitted : ℕ) (counts : ℕ → ℕ)
    → length log ≤ submitted
    → submitted + length s < u64_mod
    → After t log submitted counts
    → After (submit_all t s) (log ++ landed s) (submitted + length s) (λ k. counts k + of_kind k s)
unfolding submit_all
submit_all-After [] t log submitted counts le small v = rw (append-nil log) (
    After-counts t log submitted (submitted + 0) counts (λ k. counts k + 0) (omega arith)
      (λ k. omega arith) v)
submit_all-After ((e, lock) ∷ s) t log submitted counts le small v =
    let log' = log ++ landed ((e, lock) ∷ []) in
    let one = length-landed ((e, lock) ∷ []) in
    let size = length-append log (landed ((e, lock) ∷ [])) in
    let counts' = λ (k : ℕ). if e.kind == k then suc (counts k) else counts k in
    let ih =
      submit_all-After s (submit t e lock) log' (submitted + 1) counts' (omega arith) (omega arith)
        (submit-After t log submitted counts e (omega arith) v lock (omega arith)) in
    rw (landed-cons e lock s, ← append_assoc log (landed ((e, lock) ∷ [])) (landed s))
      (After-counts _ _ (submitted + 1 + length s) (submitted + suc (length s))
        (λ k. counts' k + of_kind k s) (λ k. counts k + of_kind k ((e, lock) ∷ s)) (omega arith)
        (λ k. of_kind-cons e lock s counts k) ih)

submitted-After :
    (s : Submissions)
    → length s < u64_mod
    → After (submit_all (init fresh true) s) (landed s) (0 + length s) (λ k. 0 + of_kind k s)
submitted-After s small = submit_all-After s _ [] 0 (λ k. 0) (omega arith) (omega arith) init-After

-- After any submissions to the initialised global ring, whatever its mutex answered: the ring
-- holds the events that got the lock, `ring_total` is their number, `total_seq` is the number of
-- attempts, and each of the nine counters counts the attempts of its kind.
pub submit_all_counts :
    (s : Submissions)
    → length s < u64_mod
    → let t = submit_all (init fresh true) s in
      Holds ring_capacity t.ring (landed s)
      × (t.ring_total ≡ length (landed s))
      × (t.total_seq ≡ length s)
      × ((k : ℕ) → k < event_kind_count → kind_count t k ≡ some (of_kind k s))
unfolding kind_count
submit_all_counts s small =
    let v = submitted-After s small in
    (
      v.holds,
      v.edge,
      omega (arith, v.attempts),
      λ k h. let (c, _) = v.counters k h in c ∙ ap some (add.zero (of_kind k s)),
    )

-- The newest events of the global ring after any submissions: with the lock, a reader gets the
-- last `newest` events that landed, or as many as are held, oldest first; without it its buffer is
-- as it was.
pub try_drain_newest-submit_all :
    (newest : ℕ) (s : Submissions) (out : List Event) (answers : ℕ → TryLock)
    → length s < u64_mod
    → let t = submit_all (init fresh true) s in
      let log = landed s in
      ((lock_spin spin_limit answers ≡ true)
        × (try_drain_newest t newest out answers
            ≡ returns
                (some tt, out ++ drop (length log - min ring_capacity newest) (number 0 log))))
      ⊎ ((lock_spin spin_limit answers ≡ false)
          × (try_drain_newest t newest out answers ≡ returns (none, out)))
unfolding try_drain_newest
try_drain_newest-submit_all newest s out answers small =
    let v = submitted-After s small in
    elim (Bool-cases (lock_spin spin_limit answers)) [
      | inl got ↦ inl (
        got,
        rw (
          v.ready,
          got,
          drain_newest_into_lem ring_capacity _ (landed s) newest out
              (omega (arith, length-landed s)) v.holds,
        ),
      )
      | inr missed ↦ inr (missed, rw (v.ready, missed))
    ]
