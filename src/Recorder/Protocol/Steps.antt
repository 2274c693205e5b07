-- ===== src/Recorder/Protocol/Steps.antt =====
-- The steps of the producers, and whole schedules: every one keeps the invariant.
use pin_bridge.Common.{
  by_cases, ℕ, ◌+◌, ◌-◌, ◌%◌, ◌≤◌, ◌<◌, ◌≡◌, refl, sym, ◌∙◌, ap, subst, List, [], ◌∷◌, ◌++◌, Bool,
  true, false, some, arith, get_elem?, take, take-append, leb, ◌==◌, ◌&&◌, not, dec_lt, u64_mod,
}
use pin_bridge.Event.{Event}
use pin_bridge.Ring.Holds.{number, length-number, number-append}
use pin_bridge.Recorder.Protocol.{
  Producer, idle, arrived, entered, live, loaded, roomy, refused, reserved, wrote, leaving, update,
  Place, poll, compares, matched, fetched, missing, missing_stopped, holed, idle_check,
  idle_stopped, closed, System, produce, goto, is_full,
}
use pin_bridge.Recorder.Protocol.Threads.{weight, total-update, weight_of_total}
use pin_bridge.Recorder.Protocol.Slots.{holds, number-old, Fine}
use pin_bridge.Recorder.Protocol.Moves.{update-elim, relabel, reserve, write}
use pin_bridge.Recorder.Protocol.Publish.{tagged-other, publish}
use pin_bridge.Recorder.Protocol.Invariant.{committed, Calm, Knows, Invariant}

-- Room below a counter that has not wrapped.
is_full-false : (size c d : ℕ) → c < u64_mod → is_full size c d ≡ false → c < d + size
is_full-false size c d h q = elim (dec_lt c d) [
  | yes stale ↦ omega arith
  | no ahead ↦
      let near : (c + u64_mod - d) % u64_mod ≡ c - d = omega arith in
      let far : leb size (c - d) ≡ false = rw near at q in ground arith
]

module _ (size n claim claim' next : ℕ) (log log' : List Event) (tag tag' : ℕ → ℕ) (armed : Bool)
    (P : ℕ → Producer) (i : ℕ) (p : Producer) (grows : claim ≤ claim')
    (old : (e : Event)
      → next < claim
      → get_elem? (number 0 log) next ≡ some e
      → get_elem? (number 0 log') next ≡ some e)
    (kept : next < claim → tag (next % size) ≡ next + 1 → tag' (next % size) ≡ next + 1)
    (calm : armed ≡ false → committed (P i) ≡ false → committed p ≡ false) (lt : i < n) where
  Calm-step :
      Calm size n claim next log tag armed P
      → Calm size n claim' next log' tag' armed (update P i p)
  Calm-step c = (
    c.0,
    update-elim (λ j q. j < n → committed q ≡ false) P i p (λ _. calm c.0 (c.1 i lt))
        (λ j _. c.1 j),
  )

  -- The drainer's knowledge outlives a step of thread `i`.
  Knows-step :
      (place : Place)
      → Knows size n claim next log tag armed P place
      → Knows size n claim' next log' tag' armed (update P i p) place
  Knows-step poll know = tt
  Knows-step (compares c) know = omega arith
  Knows-step matched know = (omega (arith, know.0), kept know.0 know.1)
  Knows-step (fetched e) know = (omega (arith, know.0), kept know.0 know.1, old e know.0 know.2)
  Knows-step missing know = omega arith
  Knows-step missing_stopped know = (omega (arith, know.0), know.1)
  Knows-step holed know = (omega (arith, know.0), Calm-step know.1)
  Knows-step idle_check know = tt
  Knows-step idle_stopped know = know
  Knows-step closed know = Calm-step know

pub later : (size n k : ℕ) (s : System) → Invariant size n k s → Invariant size n (k + 1) s
later size n k s v = record {
  slots = v.slots;
  released = v.released;
  counted = v.counted;
  knows = v.knows;
  reads = v.reads;
  early = omega (arith, v.early);
}

module _ (size n k : ℕ) (s : System) (v : Invariant size n k s) (i : ℕ) (lt : i < n) (event : Event)
    (spurious : Bool) (bound : k < u64_mod) where
  -- A thread that moves without touching the slab.
  moves :
      (q p : Producer) (f d : ℕ)
      → s.producers i ≡ q
      → holds q ≡ holds p
      → Fine size s.claim s.next s.log s.tag s.payload p
      → f + weight q ≡ s.in_flight + weight p
      → (s.armed ≡ false → committed q ≡ false → committed p ≡ false)
      → Invariant size n (k + 1) (record (goto s i p) { in_flight = f; dropped = d })
  moves q p f d stands same fine count calm =
      let sum = total-update n s.producers i p lt in
      let w : weight (s.producers i) ≡ weight q = ap weight stands in
      record {
        slots =
            relabel size n s.claim s.next s.log s.tag s.payload s.producers v.slots i p
              (ap holds stands ∙ same) fine;
        released = v.released;
        counted = omega (arith, v.counted);
        knows =
            Knows-step size n s.claim s.claim s.next s.log s.log s.tag s.tag s.armed s.producers i p
              (omega arith) (λ e _ h. h) (λ _ h. h) (λ a h. calm a (ap committed (sym stands) ∙ h))
              lt s.place v.knows;
        reads = v.reads;
        early = omega (arith, v.early);
      }

  Fine-at : (p : Producer) → s.producers i ≡ p → Fine size s.claim s.next s.log s.tag s.payload p
  Fine-at p stands = subst (Fine size s.claim s.next s.log s.tag s.payload) stands (v.slots.fine i)

  reserves :
      (e : Event)
      → s.producers i ≡ roomy e s.claim
      → Invariant size n
          (k + 1)
          (record (goto s i (reserved e s.claim)) { claim = s.claim + 1; log = s.log ++ e ∷ [] })
  reserves e stands =
      let sum = total-update n s.producers i (reserved e s.claim) lt in
      let w : weight (s.producers i) ≡ 1 = ap weight stands in
      record {
        slots =
            reserve size n s.claim s.next s.log s.tag s.payload s.producers v.slots i e stands lt;
        released = v.released;
        counted = omega (arith, v.counted);
        knows =
            Knows-step size n s.claim (s.claim + 1) s.next s.log (s.log ++ e ∷ []) s.tag s.tag
              s.armed s.producers i (reserved e s.claim) (omega arith)
              (λ d ahead h. number-old s.log e s.next (omega (arith, v.slots.count)) ∙ h) (λ _ h. h)
              (λ _ h. let busy : true ≡ false = ap committed (sym stands) ∙ h in cc) lt s.place
              v.knows;
        reads = λ ok.
            v.reads ok
            ∙ sym (
                ap (take s.next) (number-append 0 s.log e)
                ∙ take-append s.next (number 0 s.log) _
                    (omega (arith, length-number 0 s.log, v.slots.count, v.slots.ahead)));
        early = omega (arith, v.early);
      }

  writes :
      (e : Event) (c : ℕ)
      → s.producers i ≡ reserved e c
      → Invariant size n (k + 1) (record (goto s i (wrote e c)) {
        payload = update s.payload (c % size) (record e { sequence = c + 1 });
      })
  writes e c stands =
      let sum = total-update n s.producers i (wrote e c) lt in
      let w : weight (s.producers i) ≡ 1 = ap weight stands in
      record {
        slots = write size n s.claim s.next s.log s.tag s.payload s.producers v.slots i e c stands;
        released = v.released;
        counted = omega (arith, v.counted);
        knows =
            Knows-step size n s.claim s.claim s.next s.log s.log s.tag s.tag s.armed s.producers i
              (wrote e c) (omega arith) (λ d _ h. h) (λ _ h. h)
              (λ _ h. let busy : true ≡ false = ap committed (sym stands) ∙ h in cc) lt s.place
              v.knows;
        reads = v.reads;
        early = omega (arith, v.early);
      }

  publishes :
      (e : Event) (c : ℕ)
      → s.producers i ≡ wrote e c
      → Invariant size n
          (k + 1)
          (record (goto s i leaving) { tag = update s.tag (c % size) (c + 1) })
  publishes e c stands =
      let mine = Fine-at (wrote e c) stands in
      let sum = total-update n s.producers i (leaving) lt in
      let w : weight (s.producers i) ≡ 1 = ap weight stands in
      record {
        slots =
            publish size n s.claim s.next s.log s.tag s.payload s.producers v.slots i e c stands;
        released = v.released;
        counted = omega (arith, v.counted);
        knows =
            Knows-step size n s.claim s.claim s.next s.log s.log s.tag
              (update s.tag (c % size) (c + 1)) s.armed s.producers i (leaving) (omega arith)
              (λ d _ h. h)
              (λ ahead h.
                tagged-other size n s.claim s.next s.log s.tag s.payload s.producers v.slots i e c
                  stands s.next (omega arith) ahead (λ q. mine.0.2 (rw q h))
                ∙ h)
              (λ _ h. let busy : true ≡ false = ap committed (sym stands) ∙ h in cc) lt s.place
              v.knows;
        reads = v.reads;
        early = omega (arith, v.early);
      }

  pub produce-Invariant :
      (p : Producer)
      → s.producers i ≡ p
      → Invariant size n (k + 1) (produce size s i event spurious p)
  unfolding produce
  produce-Invariant idle stands =
      by_cases (Invariant size n (k + 1)) s.armed _ _
        (λ _. moves idle (arrived event) s.in_flight s.dropped stands refl tt refl (λ _ h. h))
        (λ _. later size n k s v)
  produce-Invariant (arrived e) stands =
      moves (arrived e) (entered e) (s.in_flight + 1) s.dropped stands refl tt (omega arith)
        (λ _ h. h)
  produce-Invariant (entered e) stands =
      by_cases (Invariant size n (k + 1)) s.armed _ _
        (λ a. moves (entered e) (live e) s.in_flight s.dropped stands refl tt refl (λ b h. cc))
        (λ _. moves (entered e) leaving s.in_flight s.dropped stands refl tt refl (λ _ h. h))
  produce-Invariant (live e) stands =
      moves (live e) (loaded e s.claim) s.in_flight s.dropped stands refl (omega arith) refl
        (λ _ h. h)
  produce-Invariant (loaded e c) stands =
      by_cases (Invariant size n (k + 1)) (is_full size c s.drained) _ _
        (λ _. moves (loaded e c) refused s.in_flight s.dropped stands refl tt refl (λ _ h. h))
        (λ q.
          moves (loaded e c) (roomy e c) s.in_flight s.dropped stands refl
            (omega (
              arith,
              is_full-false size c s.drained (omega (arith, v.early, Fine-at (loaded e c) stands))
                  q,
              v.released,
            ))
            refl (λ _ h. h))
  produce-Invariant (roomy e c) stands =
      by_cases (Invariant size n (k + 1)) (s.claim == c && not spurious) _ _
        (λ q.
          let same : s.claim ≡ c = ground arith in rw (← same) (reserves e (rw (← same) at stands)))
        (λ _.
          moves (roomy e c) (loaded e s.claim) s.in_flight s.dropped stands refl (omega arith) refl
            (λ _ h. h))
  produce-Invariant refused stands =
      moves refused leaving s.in_flight (s.dropped + 1) stands refl tt refl (λ _ h. refl)
  produce-Invariant (reserved e c) stands = writes e c stands
  produce-Invariant (wrote e c) stands = publishes e c stands
  produce-Invariant leaving stands =
      moves leaving idle (s.in_flight - 1) s.dropped stands refl tt
        (let sum = weight_of_total n s.producers i lt in
          let w : weight (s.producers i) ≡ 1 = ap weight stands in omega (arith, v.counted))
        (λ _ h. refl)
