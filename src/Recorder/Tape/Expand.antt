-- ===== src/Recorder/Tape/Expand.antt =====
-- The tape is lossless: a reader that expands the repeat records gets every event back.
use pin_bridge.Common.{
  ℕ, zero, suc, ◌+◌, ◌-◌, ◌<◌, ◌≡◌, ◌≢◌, refl, sym, ◌∙◌, List, [], ◌∷◌, ◌++◌, ◌&&◌, true, Option,
  none, some, arith, All, append_assoc, append-nil, ◌==◌, if◌then◌else◌, u64_mod, Bool-cases, inl,
  inr,
}
use pin_bridge.Event.{Event, event_repeat}
use pin_bridge.Recorder.Tape.{
  Drain, start, saturating_add, same_payload, repeat_record, flush_run, extend_run, consume,
  consume_all, finish,
}

-- The further events of a run of `p`: the same payload under the next sequence numbers.
abbrev pub copies : Event → ℕ → List Event
copies p zero = []
copies p (suc n) = copies p n ++ record p { sequence = p.sequence + suc n } ∷ []

repeated : Option Event → ℕ → List Event
repeated none n = []
repeated (some p) n = copies p n

-- What the documentation asks of a reader: a repeat record stands for `arg0` further events with
-- the payload of the record before it.
pub expand : Option Event → List Event → List Event
unfolding repeated
expand last [] = []
expand last (r ∷ rs) =
    if r.kind == event_repeat
    then repeated last r.arg0 ++ expand last rs
    else r ∷ expand (some r) rs

expand-nil : expand none [] ≡ []
unfolding expand
expand-nil = refl

expand-flush_run :
    (last : Option Event) (xs : List Event) (p : Event) (n : ℕ)
    → p.kind ≢ event_repeat
    → expand last (xs ++ flush_run p n) ≡ expand last xs ++ p ∷ copies p n
unfolding expand flush_run repeat_record
expand-flush_run last [] p zero h = ground arith
expand-flush_run last [] p (suc n) h = ground (arith, append-nil (copies p (suc n)))
expand-flush_run last (x ∷ xs) p n h = elim (Bool-cases (x.kind == event_repeat)) [
  | inl again ↦
      rw (again, expand-flush_run last xs p n h)
        (sym (append_assoc (repeated last x.arg0) (expand last xs) (p ∷ copies p n)))
  | inr plain ↦ rw (plain, expand-flush_run (some x) xs p n h)
]

-- What a drainer has been through: the expanded tape, then the run in hand.
record Seen (d : Drain) (events : List Event) (p : Event) : Type 0 where
  held : d.pending ≡ some p
  plain : p.kind ≢ event_repeat
  small : p.sequence + d.pending_repeats < u64_mod - 1
  all : expand none d.tape ++ p ∷ copies p d.pending_repeats ≡ events

same_payload-eq :
    (p e : Event) (n : ℕ) → same_payload p e ≡ true → n ≡ e.sequence → e ≡ record p { sequence = n }
unfolding same_payload
same_payload-eq p e n h q = ground arith

-- One more event, in the same run or in a new one.
module _ (d : Drain) (events : List Event) (p e : Event) (plain : e.kind ≢ event_repeat)
    (small : e.sequence < u64_mod - 1) (v : Seen d events p) where
  expected : ℕ
  expected = saturating_add (saturating_add p.sequence d.pending_repeats) 1

  same_run :
      (expected == e.sequence && same_payload p e) ≡ true
      → Seen
          (record d { pending = some p; pending_repeats = saturating_add d.pending_repeats 1 })
          (events ++ e ∷ [])
          p
  unfolding expected
  same_run t =
      let n = d.pending_repeats in
      let more : saturating_add n 1 ≡ suc n = omega (arith, v.small) in
      let next : expected ≡ e.sequence = ground arith in
      let follows : p.sequence + suc n ≡ e.sequence = omega (arith, v.small) in
      let same : e ≡ record p { sequence = p.sequence + suc n } =
        same_payload-eq p e (p.sequence + suc n) (ground arith) follows in
      record {
        held = refl;
        plain = v.plain;
        small = omega arith;
        all = rw (more, ← v.all, same) (sym (append_assoc (expand none d.tape) (p ∷ copies p n) _));
      }

  new_run :
      Seen
        (record {
          pending = some e;
          pending_repeats = 0;
          tape = d.tape ++ flush_run p d.pending_repeats;
        })
        (events ++ e ∷ [])
        e
  new_run = record {
    held = refl;
    plain = plain;
    small = omega arith;
    all = rw (expand-flush_run none d.tape p d.pending_repeats v.plain, v.all);
  }

  consume-Seen : (q : Event) × Seen (consume d e) (events ++ e ∷ []) q
  unfolding consume extend_run expected
  consume-Seen = elim (Bool-cases (expected == e.sequence && same_payload p e)) [
    | inl t ↦ (p, rw (v.held, t) (same_run t))
    | inr f ↦ (e, rw (v.held, f) new_run)
  ]

abbrev pub Plain : Event → Type 0
Plain e = (e.kind ≢ event_repeat) × (e.sequence < u64_mod - 1)

consume_all-Seen :
    (es : List Event) (d : Drain) (events : List Event) (p : Event)
    → All Plain es
    → Seen d events p
    → (q : Event) × Seen (consume_all d es) (events ++ es) q
unfolding consume_all
consume_all-Seen [] d events p h v = (p, rw (append-nil events) v)
consume_all-Seen (e ∷ es) d events p h v =
    let (q, v') = consume-Seen d events p e h.0.0 h.0.1 v in
    rw (← append_assoc events (e ∷ []) es)
      (consume_all-Seen es (consume d e) (events ++ e ∷ []) q h.1 v')

-- Whatever events the drainer reads, in whatever order of sequence numbers, as long as none of
-- them is itself a repeat record: expanding the repeat records of what it writes gives back those
-- events, every one with its own sequence number.
pub expand-finish :
    (events : List Event)
    → All Plain events
    → expand none (finish (consume_all start events)) ≡ events
unfolding finish consume_all consume
expand-finish [] h = expand-nil
expand-finish (e ∷ es) h =
    let first : Seen (record { pending = some e; pending_repeats = 0; tape = [] }) (e ∷ []) e =
      record { held = refl; plain = h.0.0; small = omega (arith, h.0.1); all = rw expand-nil } in
    let (q, v) = consume_all-Seen es _ (e ∷ []) e h.1 first in
    rw v.held (expand-flush_run none _ q _ v.plain ∙ v.all)
