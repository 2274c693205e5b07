-- ===== src/Ring/Holds.antt =====
-- What a ring holds: the newest events of the log of all that were pushed, numbered from 1.
use pin_bridge.Common.{
  ℕ, suc, ◌+◌, ◌%◌, ◌≤◌, ◌<◌, ◌≡◌, refl, sym, ◌∙◌, ap, List, [], ◌∷◌, ◌++◌, arith, length,
  get_elem?, set, length-set, length-append, append-nil, append_assoc, length-replicate,
  get_elem?-set_self, get_elem?-set_ne, get_elem?-append_left, get_elem?-append_length, u64_mod,
  dec_lt,
}
use native.Mathlib.Nat.{mod-lt}
use pin_bridge.Common.{mod-ne}
use pin_bridge.Event.{Event}
use pin_bridge.Ring.{Ring, new, push, sub_u64, add_u64}

-- The log as the readers see it: each event with its sequence number, the first one `k + 1`.
abbrev pub number : ℕ → List Event → List Event
number k [] = []
number k (e ∷ es) = record e { sequence = suc k } ∷ number (suc k) es

pub length-number : (k : ℕ) (log : List Event) → length (number k log) ≡ length log
length-number k [] = refl
length-number k (e ∷ es) = ap suc (length-number (suc k) es)

pub number-append :
    (k : ℕ) (log : List Event) (e : Event)
    → number k (log ++ e ∷ []) ≡ number k log ++ (record e { sequence = suc (k + length log) } ∷ [])
number-append k [] e =
    let h : suc k ≡ suc (k + 0) = omega arith in ap (λ s. record e { sequence = s } ∷ []) h
number-append k (x ∷ log) e =
    let h : suc k + length log ≡ k + suc (length log) = omega arith in
    ap (◌∷◌ (record x { sequence = suc k })) (
      number-append (suc k) log e
      ∙ ap (λ s. number (suc k) log ++ (record e { sequence = suc s } ∷ [])) h)

pub record Holds (capacity : ℕ) (r : Ring) (log : List Event) : Type 0 where
  pub total_eq : r.total ≡ length log
  pub size : length r.events ≡ capacity
  pub window :
      (i : ℕ)
      → i < length log
      → length log ≤ i + capacity
      → get_elem? r.events (i % capacity) ≡ get_elem? (number 0 log) i

pub new-Holds : (capacity : ℕ) → Holds capacity (new capacity) []
unfolding new
new-Holds capacity = record {
  total_eq = refl;
  size = length-replicate capacity _;
  window = λ i h _. absurd (omega arith);
}

-- The slot of the newest event, and the slots of the older ones that are still held.
module _ (capacity : ℕ) (r : Ring) (log : List Event) (e : Event) (pos : 0 < capacity)
    (v : Holds capacity r log) where
  numbered : Event
  numbered = record e { sequence = suc (length log) }

  log-snoc : number 0 (log ++ e ∷ []) ≡ number 0 log ++ numbered ∷ []
  unfolding numbered
  log-snoc =
      let h : suc (0 + length log) ≡ suc (length log) = omega arith in
      number-append 0 log e ∙ ap (λ s. number 0 log ++ (record e { sequence = s } ∷ [])) h

  slot :
      (i : ℕ)
      → i < length log + 1
      → length log + 1 ≤ i + capacity
      → get_elem? (set r.events (length log % capacity) numbered) (i % capacity)
        ≡ get_elem? (number 0 (log ++ e ∷ [])) i
  slot i lt near = elim (dec_lt i (length log)) [
    | yes old ↦
        get_elem?-set_ne r.events (length log % capacity) (i % capacity) numbered
          (λ q. mod-ne capacity i (length log) old (omega arith) (sym q))
        ∙ v.window i old (omega arith)
        ∙ sym (
            ap (λ l. get_elem? l i) log-snoc
            ∙ get_elem?-append_left (number 0 log) (numbered ∷ []) i
                (omega (arith, length-number 0 log)))
    | no newest ↦
        let here : i ≡ length log = omega arith in
        rw here (
          get_elem?-set_self r.events (length log % capacity) numbered
            (omega (arith, mod-lt (length log) pos, v.size))
          ∙ sym (
              ap (λ l. get_elem? l (length log)) log-snoc
              ∙ get_elem?-append_length (number 0 log) [] numbered (length log)
                  (sym (length-number 0 log))))
  ]

-- A push appends to the log: the event gets the next sequence number, and the ring holds the
-- newest `capacity` events of the longer log.
pub push-Holds :
    (capacity : ℕ) (r : Ring) (log : List Event) (e : Event)
    → 0 < capacity
    → length log + 1 < u64_mod
    → Holds capacity r log
    → Holds capacity (push capacity r e).0 (log ++ e ∷ [])
      × ((push capacity r e).1 ≡ length log + 1)
unfolding push numbered
push-Holds capacity r log e pos small v =
    let t : add_u64 r.total 1 ≡ suc (length log) = omega (arith, v.total_eq) in
    let s : sub_u64 (suc (length log)) 1 ≡ length log = omega arith in
    let size = length-append log (e ∷ []) in
    rw (t, s)
      (
        record {
          total_eq = omega arith;
          size = length-set r.events (length log % capacity) _ ∙ v.size;
          window = λ i lt near. slot capacity r log e pos v i (omega arith) (omega arith);
        },
        omega arith,
      )

unfoldable pub push_all : ℕ → Ring → List Event → Ring
push_all capacity r [] = r
push_all capacity r (e ∷ es) = push_all capacity (push capacity r e).0 es

push_all-Holds_from :
    (capacity : ℕ) (es : List Event) (r : Ring) (log : List Event)
    → 0 < capacity
    → length log + length es < u64_mod
    → Holds capacity r log
    → Holds capacity (push_all capacity r es) (log ++ es)
unfolding push_all
push_all-Holds_from capacity [] r log pos small v = rw (append-nil log) v
push_all-Holds_from capacity (e ∷ es) r log pos small v =
    let (v', _) = push-Holds capacity r log e pos (omega arith) v in
    rw (← append_assoc log (e ∷ []) es) (
      push_all-Holds_from capacity es _ (log ++ e ∷ []) pos
        (omega (arith, length-append log (e ∷ []))) v')

-- A new ring holds whatever is pushed to it.
pub push_all-Holds :
    (capacity : ℕ) (es : List Event)
    → 0 < capacity
    → length es < u64_mod
    → Holds capacity (push_all capacity (new capacity) es) es
push_all-Holds capacity es pos small =
    push_all-Holds_from capacity es (new capacity) [] pos (omega arith) (new-Holds capacity)
