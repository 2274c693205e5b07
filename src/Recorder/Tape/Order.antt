-- ===== src/Recorder/Tape/Order.antt =====
-- The sequence numbers of a tape rise strictly.
use pin_bridge.Common.{
  ℕ, zero, suc, ◌+◌, ◌-◌, ◌≤◌, ◌<◌, ◌≡◌, refl, List, [], ◌∷◌, ◌++◌, ◌&&◌, some, arith, length, ◌==◌,
  u64_mod, Bool-cases, inl, inr,
}
use pin_bridge.Event.{Event}
use pin_bridge.Ring.Holds.{number}
use pin_bridge.Recorder.Tape.{
  Drain, start, saturating_add, marker, same_payload, repeat_record, flush_run, extend_run, consume,
  consume_all, finish, session_tape,
}

-- Each number is above the one before it, the first above `lo`, the last at most `hi`.
abbrev pub Ascends : ℕ → List Event → ℕ → Type 0
Ascends lo [] hi = lo ≤ hi
Ascends lo (e ∷ es) hi = (lo < e.sequence) × Ascends e.sequence es hi

Ascends-mono : (lo mid hi : ℕ) (ys : List Event) → lo ≤ mid → Ascends mid ys hi → Ascends lo ys hi
Ascends-mono lo mid hi [] h k = omega arith
Ascends-mono lo mid hi (y ∷ ys) h k = (omega arith, k.1)

Ascends-append :
    (lo mid hi : ℕ) (xs ys : List Event)
    → Ascends lo xs mid
    → Ascends mid ys hi
    → Ascends lo (xs ++ ys) hi
Ascends-append lo mid hi [] ys h k = Ascends-mono lo mid hi ys h k
Ascends-append lo mid hi (x ∷ xs) ys h k = (h.0, Ascends-append x.sequence mid hi xs ys h.1 k)

flush_run-Ascends :
    (lo n : ℕ) (p : Event)
    → lo < p.sequence
    → p.sequence + n < u64_mod
    → Ascends lo (flush_run p n) (p.sequence + n)
unfolding flush_run repeat_record
flush_run-Ascends lo zero p h small = ground arith
flush_run-Ascends lo (suc n) p h small = ground arith

-- After `count` consecutive events: the tape ends below the run in hand, which ends at `count`.
record Run (d : Drain) (count : ℕ) (p : Event) : Type 0 where
  held : d.pending ≡ some p
  last : p.sequence + d.pending_repeats ≡ count
  below : (b : ℕ) × (b < p.sequence) × Ascends 0 d.tape b

consume-Run :
    (d : Drain) (count : ℕ) (p e : Event)
    → suc count < u64_mod - 1
    → e.sequence ≡ suc count
    → Run d count p
    → (q : Event) × Run (consume d e) (suc count) q
unfolding consume extend_run
consume-Run d count p e small next v =
    let (b, lt, asc) = v.below in
    elim (Bool-cases (
      saturating_add (saturating_add p.sequence d.pending_repeats) 1 == e.sequence
      && same_payload p e)) [
        | inl t ↦ (
          p,
          rw (v.held, t) (record { held = refl; last = omega (arith, v.last); below = v.below }),
        )
        | inr f ↦ (
          e,
          rw (v.held, f)
              (record {
                held = refl;
                last = omega arith;
                below = (
                  p.sequence + d.pending_repeats,
                  omega (arith, v.last),
                  Ascends-append 0 b _ d.tape _ asc
                      (flush_run-Ascends b d.pending_repeats p lt (omega (arith, v.last))),
                );
              }),
        )
      ]

consume_all-Run :
    (es : List Event) (d : Drain) (count : ℕ) (p : Event)
    → count + length es < u64_mod - 1
    → Run d count p
    → (q : Event) × Run (consume_all d (number count es)) (count + length es) q
unfolding consume_all
consume_all-Run [] d count p small v = let e : count ≡ count + 0 = omega arith in (p, rw (← e) v)
consume_all-Run (e ∷ es) d count p small v =
    let (q, v') = consume-Run d count p (record e { sequence = suc count }) (omega arith) refl v in
    let same : suc count + length es ≡ count + suc (length es) = omega arith in
    rw (← same) (consume_all-Run es _ (suc count) q (omega arith) v')

finish-Run :
    (d : Drain) (count : ℕ) (p : Event)
    → count < u64_mod
    → Run d count p
    → Ascends 0 (finish d) count
unfolding finish
finish-Run d count p small v =
    let (b, lt, asc) = v.below in
    rw (v.held, finish, ← v.last)
      (Ascends-append 0 b (p.sequence + d.pending_repeats) d.tape _ asc
        (flush_run-Ascends b d.pending_repeats p lt (omega (arith, v.last))))

finish-Ascends :
    (log : List Event)
    → length log < u64_mod - 2
    → Ascends 0 (finish (consume_all start (number 0 log))) (length log)
unfolding consume_all consume finish
finish-Ascends [] small = omega arith
finish-Ascends (e ∷ es) small =
    let first : Run (record start { pending = some (record e { sequence = 1 }) }) 1
        (record e { sequence = 1 }) =
      record { held = refl; last = omega arith; below = (0, omega arith, omega arith) } in
    let (q, v) = consume_all-Run es _ 1 _ (omega arith) first in
    let same : 1 + length es ≡ suc (length es) = omega arith in
    finish-Run (consume_all start (number 0 (e ∷ es))) (suc (length es)) q (omega arith)
      (rw (← same) v)

pub session_tape-Ascends :
    (kinds_mask : ℕ) (log : List Event)
    → length log < u64_mod - 2
    → (first : Event) × (rest : List Event) × (session_tape kinds_mask
          (length log)
          (length log)
          (number 0 log)
        ≡ first ∷ rest)
      × (first.sequence ≡ 0)
      × Ascends 0 rest (length log + 1)
unfolding session_tape marker
session_tape-Ascends kinds_mask log small = (
  marker 0 1 kinds_mask,
  _,
  refl,
  refl,
  Ascends-append 0 (length log) (length log + 1) _ _ (finish-Ascends log small)
      (omega arith, omega arith),
)
