-- ===== src/Recorder/Protocol/Invariant.antt =====
-- The invariant of a recording session, and the steps of the drainer that keep it.
use pin_bridge.Common.{
  by_cases, ℕ, ◌+◌, ◌%◌, ◌≤◌, ◌<◌, ◌≡◌, ◌≢◌, refl, sym, ◌∙◌, ap, inl, inr, List, [], ◌∷◌, ◌++◌,
  Bool, true, false, none, some, arith, get_elem?, take, drop-eq-cons, take-append-take, ltb, ◌==◌,
}
use pin_bridge.Event.{Event}
use pin_bridge.Ring.Holds.{number}
use pin_bridge.Recorder.Protocol.{
  Producer, idle, arrived, entered, live, loaded, roomy, refused, reserved, wrote, leaving, Place,
  poll, compares, matched, fetched, missing, missing_stopped, holed, idle_check, idle_stopped,
  closed, System, started, drain,
}
use pin_bridge.Recorder.Protocol.Threads.{weight, total, weight_of_total, total-idle}
use pin_bridge.Recorder.Protocol.Slots.{holds, Published, Slots}
use pin_bridge.Recorder.Protocol.Publish.{advance, free_of_published}

-- A thread that has passed the second check of ARMED, and may still record.
abbrev pub committed : Producer → Bool
committed idle = false
committed (arrived _) = false
committed (entered _) = false
committed leaving = false
committed _ = true

-- What the drainer knows where it stands.
module _ (size n claim next : ℕ) (log : List Event) (tag : ℕ → ℕ) (armed : Bool)
    (P : ℕ → Producer) where
  abbrev pub Calm : Type 0
  Calm = (armed ≡ false) × ((i : ℕ) → i < n → committed (P i) ≡ false)

  abbrev pub Knows : Place → Type 0
  Knows poll = Unit {0}
  Knows (compares k) = k ≤ claim
  Knows matched = (next < claim) × (tag (next % size) ≡ next + 1)
  Knows (fetched e) =
      (next < claim) × (tag (next % size) ≡ next + 1) × (get_elem? (number 0 log) next ≡ some e)
  Knows missing = next < claim
  Knows missing_stopped = (next < claim) × (armed ≡ false)
  Knows holed = (next < claim) × Calm
  Knows idle_check = Unit {0}
  Knows idle_stopped = armed ≡ false
  Knows closed = Calm

abbrev pub KnowsAt : ℕ → ℕ → System → Place → Type 0
KnowsAt size n s p = Knows size n s.claim s.next s.log s.tag s.armed s.producers p

-- At most `k` steps have been made, and `n` threads record into `size` slots.
pub record Invariant (size n k : ℕ) (s : System) : Type 0 where
  pub slots : Slots size n s.claim s.next s.log s.tag s.payload s.producers
  pub released : s.drained ≡ s.next
  pub counted : s.in_flight ≡ total n s.producers
  pub knows : KnowsAt size n s s.place
  pub reads : s.failed ≡ false → s.consumed ≡ take s.next (number 0 s.log)
  pub early : s.claim ≤ k

pub started-Invariant : (size n : ℕ) → Invariant size n 0 started
unfolding started
started-Invariant size n = record {
  slots = record {
    ahead = omega arith;
    window = omega arith;
    count = refl;
    tags = λ j. omega arith;
    fine = λ i. tt;
    unique = λ i j c h _. let q : none ≡ some c = h in cc;
    ready = λ c lo hi. absurd (omega arith);
  };
  released = refl;
  counted = sym (total-idle n);
  knows = tt;
  reads = λ _. refl;
  early = omega arith;
}

committed_of_holds : (p : Producer) (c : ℕ) → holds p ≡ some c → committed p ≢ false
committed_of_holds (reserved e d) c h q = cc
committed_of_holds (wrote e d) c h q = cc
committed_of_holds (loaded e d) c h q = cc
committed_of_holds (roomy e d) c h q = cc
committed_of_holds idle c h q = cc
committed_of_holds (arrived d) c h q = cc
committed_of_holds (entered d) c h q = cc
committed_of_holds (live d) c h q = cc
committed_of_holds refused c h q = cc
committed_of_holds leaving c h q = cc

-- A slot that is claimed and that nobody holds is published.
pub Published-of_calm :
    (size n claim next : ℕ) (log : List Event) (tag : ℕ → ℕ) (payload : ℕ → Event)
    (P : ℕ → Producer)
    → Slots size n claim next log tag payload P
    → ((i : ℕ) → i < n → committed (P i) ≡ false)
    → (c : ℕ) → next ≤ c
    → c < claim
    → Published size claim next log tag payload c
Published-of_calm size n claim next log tag payload P v calm c lo hi = elim (v.ready c lo hi) [
  | inl done ↦ done
  | inr (i, lt, h) ↦ absurd (committed_of_holds (P i) c h (calm i lt))
]

take_next :
    (xs : List Event) (k : ℕ) (e : Event)
    → get_elem? xs k ≡ some e
    → take k xs ++ e ∷ [] ≡ take (k + 1) xs
take_next xs k e h =
    ap (λ l. take k xs ++ take 1 l) (sym (drop-eq-cons xs k e h))
    ∙ take-append-take xs k 1 (k + 1) refl

calm_of_light : (p : Producer) → weight p ≡ 0 → committed p ≡ false
calm_of_light idle h = refl
calm_of_light (arrived d) h = refl
calm_of_light (entered d) h = refl
calm_of_light leaving h = refl
calm_of_light (live d) h = absurd (omega arith)
calm_of_light (loaded e d) h = absurd (omega arith)
calm_of_light (roomy e d) h = absurd (omega arith)
calm_of_light refused h = absurd (omega arith)
calm_of_light (reserved e d) h = absurd (omega arith)
calm_of_light (wrote e d) h = absurd (omega arith)

pub calm_of_empty :
    (n : ℕ) (P : ℕ → Producer) → total n P ≡ 0 → (i : ℕ) → i < n → committed (P i) ≡ false
calm_of_empty n P h i lt =
    let w : weight (P i) ≡ 0 = omega (arith, weight_of_total n P i lt) in calm_of_light (P i) w

module _ (size n k : ℕ) (s : System) (v : Invariant size n k s) where
  -- A step of the drainer that only moves it.
  turn : (p : Place) → KnowsAt size n s p → Invariant size n k (record s { place = p })
  turn p know = record {
    slots = v.slots;
    released = v.released;
    counted = v.counted;
    knows = know;
    reads = v.reads;
    early = v.early;
  }

  passes :
      (f : Bool) (d : ℕ) (w : ℕ) (read : List Event)
      → s.next < s.claim
      → ((j : ℕ) → holds (s.producers j) ≢ some s.next)
      → (f ≡ false → read ≡ take (s.next + 1) (number 0 s.log))
      → Invariant size n k (record s {
        failed = f;
        dropped = d;
        written = w;
        next = s.next + 1;
        drained = s.next + 1;
        consumed = read;
        place = poll;
      })
  passes f d w read lt free fits = record {
    slots = advance size n s.claim s.next s.log s.tag s.payload s.producers v.slots lt free;
    released = refl;
    counted = v.counted;
    knows = tt;
    reads = fits;
    early = v.early;
  }

  quiet : s.in_flight ≡ 0 → (i : ℕ) → i < n → committed (s.producers i) ≡ false
  quiet h = calm_of_empty n s.producers (sym v.counted ∙ h)

  pub drain-Invariant : (p : Place) → KnowsAt size n s p → Invariant size n k (drain size s p)
  unfolding drain
  drain-Invariant poll know = turn (compares s.claim) (omega arith)
  drain-Invariant (compares c) know =
      by_cases (Invariant size n k) (ltb s.next c) _ _
        (λ lt.
          let lt' : s.next < s.claim = ground arith in
          by_cases (Invariant size n k) (s.tag (s.next % size) == s.next + 1) _ _
            (λ q. turn matched (lt', ground arith)) (λ _. turn missing lt'))
        (λ _. turn idle_check tt)
  drain-Invariant matched know =
      let free : (j : ℕ) → holds (s.producers j) ≢ some s.next =
        free_of_published size n s.claim s.next s.log s.tag s.payload s.producers v.slots know.0
          know.1 in
      elim (v.slots.ready s.next (omega arith) know.0) [
        | inl done ↦ turn (fetched (s.payload (s.next % size))) (know.0, know.1, done.1)
        | inr (j, lt, h) ↦ absurd (free j h)
      ]
  drain-Invariant (fetched e) know =
      passes s.failed s.dropped (s.written + 1) (s.consumed ++ e ∷ []) know.0
        (free_of_published size n s.claim s.next s.log s.tag s.payload s.producers v.slots know.0
          know.1)
        (λ ok. ap (λ l. l ++ e ∷ []) (v.reads ok) ∙ take_next (number 0 s.log) s.next e know.2)
  drain-Invariant missing know =
      by_cases (Invariant size n k) s.armed _ _ (λ _. turn poll tt)
        (λ q. turn missing_stopped (know, q))
  drain-Invariant missing_stopped know =
      by_cases (Invariant size n k) (s.in_flight == 0) _ _
        (λ q. turn holed (know.0, (know.1, quiet (ground arith)))) (λ _. turn poll tt)
  drain-Invariant holed know =
      let done =
        Published-of_calm size n s.claim s.next s.log s.tag s.payload s.producers v.slots know.1.1
          s.next (omega arith) know.0 in
      passes true (s.dropped + 1) s.written s.consumed know.0
        (free_of_published size n s.claim s.next s.log s.tag s.payload s.producers v.slots know.0
          done.0)
        (λ bad. cc)
  drain-Invariant idle_check know =
      by_cases (Invariant size n k) s.armed _ _ (λ _. turn poll tt) (λ q. turn idle_stopped q)
  drain-Invariant idle_stopped know =
      by_cases (Invariant size n k) (s.in_flight == 0) _ _
        (λ q. turn closed (know, quiet (ground arith))) (λ _. turn poll tt)
  drain-Invariant closed know = v
