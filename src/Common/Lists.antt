-- ===== src/Common/Lists.antt =====
-- Vectors and slices as lists, measured and indexed by native numbers under the library's names.
use Prim.Native.Nat.{ℕ, zero, suc, ◌+◌, ◌-◌, ◌≤◌, ◌<◌, min}
use mathlib.Core.Path.{◌≡◌, refl, sym, ap, ◌∙◌}
use mathlib.Core.Logic.{◌≢◌, inl, inr}
use mathlib.Core.List.{
  List, [], ◌∷◌, ◌++◌, map, reverse, reverse-cons, reverse-append, reverse-reverse,
}
use native.Mathlib.Decide.{dec_le}
use mathlib.Core.Option.{Option, none, some}
use mathlib.Core.Bool.{Bool, true, false}
use pin_bridge.Common.Tests.{if◌then◌else◌, Bool-cases}
use native.Mathlib.Omega.{arith}

module _ {ℓ} {A : Type ℓ} where
  abbrev pub length : List A → ℕ
  length [] = 0
  length (x ∷ xs) = suc (length xs)

  abbrev pub get_elem? : List A → ℕ → Option A
  get_elem? [] i = none
  get_elem? (x ∷ xs) zero = some x
  get_elem? (x ∷ xs) (suc i) = get_elem? xs i

  abbrev pub get_or : List A → ℕ → A → A
  get_or [] i d = d
  get_or (x ∷ xs) zero d = x
  get_or (x ∷ xs) (suc i) d = get_or xs i d

  -- A write out of bounds changes nothing.
  abbrev pub set : List A → ℕ → A → List A
  set [] i v = []
  set (x ∷ xs) zero v = v ∷ xs
  set (x ∷ xs) (suc i) v = x ∷ set xs i v

  abbrev pub take : ℕ → List A → List A
  take zero xs = []
  take (suc n) [] = []
  take (suc n) (x ∷ xs) = x ∷ take n xs

  abbrev pub drop : ℕ → List A → List A
  drop zero xs = xs
  drop (suc n) [] = []
  drop (suc n) (x ∷ xs) = drop n xs

  abbrev pub concat : List (List A) → List A
  concat [] = []
  concat (xs ∷ xss) = xs ++ concat xss

  unfoldable pub replicate : ℕ → A → List A
  replicate zero a = []
  replicate (suc n) a = a ∷ replicate n a

  pub length-append : (xs ys : List A) → length (xs ++ ys) ≡ length xs + length ys
  length-append [] ys = omega arith
  length-append (x ∷ xs) ys = omega (arith, length-append xs ys)

  pub length-set : (xs : List A) (i : ℕ) (v : A) → length (set xs i v) ≡ length xs
  length-set [] i v = refl
  length-set (x ∷ xs) zero v = refl
  length-set (x ∷ xs) (suc i) v = ap suc (length-set xs i v)

  pub length-replicate : (n : ℕ) (a : A) → length (replicate n a) ≡ n
  unfolding replicate
  length-replicate zero a = refl
  length-replicate (suc n) a = ap suc (length-replicate n a)

  pub get_elem?-replicate : (n i : ℕ) (a : A) → i < n → get_elem? (replicate n a) i ≡ some a
  unfolding replicate
  get_elem?-replicate zero i a h = elim h [ ]
  get_elem?-replicate (suc n) zero a h = refl
  get_elem?-replicate (suc n) (suc i) a h = get_elem?-replicate n i a (omega arith)

  pub length-take : (n : ℕ) (xs : List A) → length (take n xs) ≡ min n (length xs)
  length-take zero xs = omega arith
  length-take (suc n) [] = omega arith
  length-take (suc n) (x ∷ xs) = omega (arith, length-take n xs)

  pub length-drop : (n : ℕ) (xs : List A) → length (drop n xs) ≡ length xs - n
  length-drop zero xs = omega arith
  length-drop (suc n) [] = omega arith
  length-drop (suc n) (x ∷ xs) = omega (arith, length-drop n xs)

  pub get_elem?-set_self :
      (xs : List A) (i : ℕ) (v : A) → i < length xs → get_elem? (set xs i v) i ≡ some v
  get_elem?-set_self [] i v h = elim h [ ]
  get_elem?-set_self (x ∷ xs) zero v h = refl
  get_elem?-set_self (x ∷ xs) (suc i) v h = get_elem?-set_self xs i v (omega arith)

  pub get_elem?-set_ne :
      (xs : List A) (i j : ℕ) (v : A) → i ≢ j → get_elem? (set xs i v) j ≡ get_elem? xs j
  get_elem?-set_ne [] i j v h = refl
  get_elem?-set_ne (x ∷ xs) zero zero v h = absurd (h refl)
  get_elem?-set_ne (x ∷ xs) zero (suc j) v h = refl
  get_elem?-set_ne (x ∷ xs) (suc i) zero v h = refl
  get_elem?-set_ne (x ∷ xs) (suc i) (suc j) v h = get_elem?-set_ne xs i j v (λ e. h (ap suc e))

  pub get_elem?-append_left :
      (xs ys : List A) (i : ℕ) → i < length xs → get_elem? (xs ++ ys) i ≡ get_elem? xs i
  get_elem?-append_left [] ys i h = elim h [ ]
  get_elem?-append_left (x ∷ xs) ys zero h = refl
  get_elem?-append_left (x ∷ xs) ys (suc i) h = get_elem?-append_left xs ys i (omega arith)

  pub get_elem?-append_length :
      (xs ys : List A) (x : A) (i : ℕ) → i ≡ length xs → get_elem? (xs ++ x ∷ ys) i ≡ some x
  get_elem?-append_length [] ys x zero h = refl
  get_elem?-append_length [] ys x (suc i) h = absurd (omega arith)
  get_elem?-append_length (y ∷ xs) ys x zero h = absurd (omega arith)
  get_elem?-append_length (y ∷ xs) ys x (suc i) h = get_elem?-append_length xs ys x i (omega arith)

  pub take-append_length : (xs ys : List A) (n : ℕ) → n ≡ length xs → take n (xs ++ ys) ≡ xs
  take-append_length [] ys zero h = refl
  take-append_length [] ys (suc n) h = absurd (omega arith)
  take-append_length (x ∷ xs) ys zero h = absurd (omega arith)
  take-append_length (x ∷ xs) ys (suc n) h = ap (◌∷◌ x) (take-append_length xs ys n (omega arith))

  pub drop-append_length : (xs ys : List A) (n : ℕ) → n ≡ length xs → drop n (xs ++ ys) ≡ ys
  drop-append_length [] ys zero h = refl
  drop-append_length [] ys (suc n) h = absurd (omega arith)
  drop-append_length (x ∷ xs) ys zero h = absurd (omega arith)
  drop-append_length (x ∷ xs) ys (suc n) h = drop-append_length xs ys n (omega arith)

  pub take-append : (n : ℕ) (xs ys : List A) → n ≤ length xs → take n (xs ++ ys) ≡ take n xs
  take-append zero xs ys h = refl
  take-append (suc n) [] ys h = absurd (omega arith)
  take-append (suc n) (x ∷ xs) ys h = ap (◌∷◌ x) (take-append n xs ys (omega arith))

  pub drop-append : (n : ℕ) (xs ys : List A) → n ≤ length xs → drop n (xs ++ ys) ≡ drop n xs ++ ys
  drop-append zero xs ys h = refl
  drop-append (suc n) [] ys h = absurd (omega arith)
  drop-append (suc n) (x ∷ xs) ys h = drop-append n xs ys (omega arith)

  pub take-append_right :
      (n : ℕ) (xs ys : List A) → length xs ≤ n → take n (xs ++ ys) ≡ xs ++ take (n - length xs) ys
  take-append_right n [] ys h = let e : n ≡ n - 0 = omega arith in ap (λ k. take k ys) e
  take-append_right zero (x ∷ xs) ys h = absurd (omega arith)
  take-append_right (suc n) (x ∷ xs) ys h =
      let e : n - length xs ≡ suc n - suc (length xs) = omega arith in
      ap (◌∷◌ x) (take-append_right n xs ys (omega arith) ∙ ap (λ k. xs ++ take k ys) e)

  -- The element at `i` heads the rest from `i` on.
  pub drop-eq-cons :
      (xs : List A) (i : ℕ) (x : A) → get_elem? xs i ≡ some x → drop i xs ≡ x ∷ drop (i + 1) xs
  drop-eq-cons [] i x h = cc
  drop-eq-cons (y ∷ xs) zero x h = ground arith
  drop-eq-cons (y ∷ xs) (suc i) x h =
      let e : suc (i + 1) ≡ suc i + 1 = omega arith in
      drop-eq-cons xs i x h ∙ ap (λ k. x ∷ drop k (y ∷ xs)) e

  pub get_elem?_of_lt : (xs : List A) (i : ℕ) → i < length xs → (x : A) × (get_elem? xs i ≡ some x)
  get_elem?_of_lt [] i h = elim h [ ]
  get_elem?_of_lt (x ∷ xs) zero h = (x, refl)
  get_elem?_of_lt (x ∷ xs) (suc i) h = get_elem?_of_lt xs i (omega arith)

  pub lt_of_get_elem? : (xs : List A) (i : ℕ) (x : A) → get_elem? xs i ≡ some x → i < length xs
  lt_of_get_elem? [] i x h = cc
  lt_of_get_elem? (y ∷ xs) zero x h = omega arith
  lt_of_get_elem? (y ∷ xs) (suc i) x h = omega (arith, lt_of_get_elem? xs i x h)

  pub get_or_of_get_elem? :
      (xs : List A) (i : ℕ) (x d : A) → get_elem? xs i ≡ some x → get_or xs i d ≡ x
  get_or_of_get_elem? [] i x d h = cc
  get_or_of_get_elem? (y ∷ xs) zero x d h = cc
  get_or_of_get_elem? (y ∷ xs) (suc i) x d h = get_or_of_get_elem? xs i x d h

  pub drop-ge : (xs : List A) (n : ℕ) → length xs ≤ n → drop n xs ≡ []
  drop-ge [] zero h = refl
  drop-ge [] (suc n) h = refl
  drop-ge (x ∷ xs) zero h = absurd (omega arith)
  drop-ge (x ∷ xs) (suc n) h = drop-ge xs n (omega arith)

  pub take-ge : (xs : List A) (n : ℕ) → length xs ≤ n → take n xs ≡ xs
  take-ge [] zero h = refl
  take-ge [] (suc n) h = refl
  take-ge (x ∷ xs) zero h = absurd (omega arith)
  take-ge (x ∷ xs) (suc n) h = ap (◌∷◌ x) (take-ge xs n (omega arith))

  pub take-nil : (n : ℕ) → take n (let e : List A = [] in e) ≡ []
  take-nil zero = refl
  take-nil (suc n) = refl

  pub drop-nil : (n : ℕ) → drop n (let e : List A = [] in e) ≡ []
  drop-nil zero = refl
  drop-nil (suc n) = refl

  pub drop-drop : (xs : List A) (i w j : ℕ) → j ≡ i + w → drop w (drop i xs) ≡ drop j xs
  drop-drop xs zero w j e = let e' : w ≡ j = omega arith in rw e'
  drop-drop [] (suc i) w j e = drop-nil w ∙ sym (drop-nil j)
  drop-drop (x ∷ xs) (suc i) w zero e = absurd (omega arith)
  drop-drop (x ∷ xs) (suc i) w (suc j) e = drop-drop xs i w j (omega arith)

  pub take-append-take :
      (xs : List A) (w v n : ℕ) → n ≡ w + v → take w xs ++ take v (drop w xs) ≡ take n xs
  take-append-take xs zero v n e = let e' : v ≡ n = omega arith in rw e'
  take-append-take [] (suc w) v n e = take-nil v ∙ sym (take-nil n)
  take-append-take (x ∷ xs) (suc w) v zero e = absurd (omega arith)
  take-append-take (x ∷ xs) (suc w) v (suc n) e =
      ap (◌∷◌ x) (take-append-take xs w v n (omega arith))

  pub take-append-drop : (n : ℕ) (xs : List A) → take n xs ++ drop n xs ≡ xs
  take-append-drop zero xs = refl
  take-append-drop (suc n) [] = refl
  take-append-drop (suc n) (x ∷ xs) = ap (◌∷◌ x) (take-append-drop n xs)

  pub take_all : (n : ℕ) (xs : List A) → n ≡ length xs → (take n xs ≡ xs) × (drop n xs ≡ [])
  take_all zero [] e = (refl, refl)
  take_all (suc n) [] e = absurd (omega arith)
  take_all zero (x ∷ xs) e = absurd (omega arith)
  take_all (suc n) (x ∷ xs) e = let (t, d) = take_all n xs (omega arith) in (ap (◌∷◌ x) t, d)

  pub take-take : (m n : ℕ) (xs : List A) → m ≤ n → take m (take n xs) ≡ take m xs
  take-take zero n xs h = refl
  take-take (suc m) zero xs h = absurd (omega arith)
  take-take (suc m) (suc n) [] h = refl
  take-take (suc m) (suc n) (x ∷ xs) h = ap (◌∷◌ x) (take-take m n xs (omega arith))

  pub take-min : (n : ℕ) (xs : List A) → take (min n (length xs)) xs ≡ take n xs
  take-min zero xs = let e : min 0 (length xs) ≡ 0 = omega arith in rw e
  take-min (suc n) [] = take-nil _
  take-min (suc n) (x ∷ xs) =
      let e : min (suc n) (suc (length xs)) ≡ suc (min n (length xs)) = omega arith in
      rw e (ap (◌∷◌ x) (take-min n xs))

  -- Taking `n` of `k` elements, however many there are, leaves the rest of the `k` to take.
  pub take-rest :
      (xs : List A) (n k : ℕ)
      → n ≤ k
      → (take n xs ++ take (k - length (take n xs)) (drop n xs) ≡ take k xs)
        × (drop (k - length (take n xs)) (drop n xs) ≡ drop k xs)
  take-rest xs zero k h = let e : k - 0 ≡ k = omega arith in (rw e refl, rw e refl)
  take-rest [] (suc n) k h =
      (take-nil (k - 0) ∙ sym (take-nil k), drop-nil (k - 0) ∙ sym (drop-nil k))
  take-rest (x ∷ xs) (suc n) zero h = absurd (omega arith)
  take-rest (x ∷ xs) (suc n) (suc k) h =
      let (t, d) = take-rest xs n k (omega arith) in
      let e : suc k - suc (length (take n xs)) ≡ k - length (take n xs) = omega arith in
      rw e (ap (◌∷◌ x) t, d)

  -- Two slices that meet make one.
  pub slice-append :
      (xs : List A) (w v i j n : ℕ)
      → j ≡ i + w
      → n ≡ w + v
      → take w (drop i xs) ++ take v (drop j xs) ≡ take n (drop i xs)
  slice-append xs w v i j n e f = rw (← drop-drop xs i w j e) (take-append-take (drop i xs) w v n f)

module _ {ℓ κ} {A : Type ℓ} (P : A → Type κ) where
  abbrev pub All : List A → Type κ
  All [] = Unit
  All (x ∷ xs) = P x × All xs

  pub All-append : (xs ys : List A) → All xs → All ys → All (xs ++ ys)
  All-append [] ys hx hy = hy
  All-append (x ∷ xs) ys hx hy = (hx.0, All-append xs ys hx.1 hy)

  pub All-take : (n : ℕ) (xs : List A) → All xs → All (take n xs)
  All-take zero xs h = tt
  All-take (suc n) [] h = tt
  All-take (suc n) (x ∷ xs) h = (h.0, All-take n xs h.1)

  pub All-drop : (n : ℕ) (xs : List A) → All xs → All (drop n xs)
  All-drop zero xs h = h
  All-drop (suc n) [] h = tt
  All-drop (suc n) (x ∷ xs) h = All-drop n xs h.1

pub All-intro {ℓ κ} : {A : Type ℓ} (P : A → Type κ) (xs : List A) → ((x : A) → P x) → All P xs
All-intro P [] f = tt
All-intro P (x ∷ xs) f = (f x, All-intro P xs f)

pub All-imp {ℓ κ ι} :
    {A : Type ℓ} (P : A → Type κ) (Q : A → Type ι) (xs : List A)
    → ((x : A) → P x → Q x)
    → All P xs
    → All Q xs
All-imp P Q [] f h = tt
All-imp P Q (x ∷ xs) f h = (f x (h.0), All-imp P Q xs f (h.1))

pub All-zip {ℓ κ ι μ} :
    {A : Type ℓ} (P : A → Type κ) (Q : A → Type ι) (R : A → Type μ) (xs : List A)
    → ((x : A) → P x → Q x → R x)
    → All P xs
    → All Q xs
    → All R xs
All-zip P Q R [] f hp hq = tt
All-zip P Q R (x ∷ xs) f hp hq = (f x (hp.0) (hq.0), All-zip P Q R xs f (hp.1) (hq.1))

module _ {ℓ} {A : Type ℓ} where
  -- The elements that a test accepts.
  abbrev pub keep : (A → Bool) → List A → List A
  keep f [] = []
  keep f (x ∷ xs) = if f x then x ∷ keep f xs else keep f xs

  pub keep-append : (f : A → Bool) (xs ys : List A) → keep f (xs ++ ys) ≡ keep f xs ++ keep f ys
  keep-append f [] ys = refl
  keep-append f (x ∷ xs) ys = ground (arith, keep-append f xs ys)

  pub length-keep : (f : A → Bool) (xs : List A) → length (keep f xs) ≤ length xs
  length-keep f [] = omega arith
  length-keep f (x ∷ xs) = elim (Bool-cases (f x)) [
    | inl t ↦ rw t (omega (arith, length-keep f xs))
    | inr n ↦ rw n (omega (arith, length-keep f xs))
  ]

  pub keep-All : (f : A → Bool) (xs : List A) → All (λ x. f x ≡ true) xs → keep f xs ≡ xs
  keep-All f [] h = refl
  keep-All f (x ∷ xs) h = rw (h.0, keep-All f xs h.1)

  pub keep_none : (f : A → Bool) (xs : List A) → All (λ x. f x ≡ false) xs → keep f xs ≡ []
  keep_none f [] h = refl
  keep_none f (x ∷ xs) h = rw (h.0, keep_none f xs h.1)

  pub length-reverse : (xs : List A) → length (reverse xs) ≡ length xs
  length-reverse [] = refl
  length-reverse (x ∷ xs) =
      rw (reverse-cons x xs) (omega (arith, length-append (reverse xs) (x ∷ []), length-reverse xs))

  -- The last `n` elements, taken from the front of the reverse.
  pub reverse-take-reverse :
      (n : ℕ) (xs : List A) → reverse (take n (reverse xs)) ≡ drop (length xs - n) xs
  reverse-take-reverse n xs = elim (dec_le n (length xs)) [
    | yes h ↦
        let k = length xs - n in
        let e : reverse xs ≡ reverse (drop k xs) ++ reverse (take k xs) =
          ap reverse (sym (take-append-drop k xs)) ∙ reverse-append (take k xs) (drop k xs) in
        let l : n ≡ length (reverse (drop k xs)) =
          omega (arith, length-reverse (drop k xs), length-drop k xs) in
        rw (e, take-append_length (reverse (drop k xs)) (reverse (take k xs)) n l)
          (reverse-reverse (drop k xs))
    | no h ↦
        let z : length xs - n ≡ 0 = omega arith in
        rw (z, take-ge (reverse xs) n (omega (arith, length-reverse xs))) (reverse-reverse xs)
  ]

module _ {ℓ κ} {A : Type ℓ} {B : Type κ} (f : A → B) where
  pub map-take : (n : ℕ) (xs : List A) → map f (take n xs) ≡ take n (map f xs)
  map-take zero xs = refl
  map-take (suc n) [] = refl
  map-take (suc n) (x ∷ xs) = ap (◌∷◌ (f x)) (map-take n xs)

  pub map-drop : (n : ℕ) (xs : List A) → map f (drop n xs) ≡ drop n (map f xs)
  map-drop zero xs = refl
  map-drop (suc n) [] = refl
  map-drop (suc n) (x ∷ xs) = map-drop n xs

  pub length-map : (xs : List A) → length (map f xs) ≡ length xs
  length-map [] = refl
  length-map (x ∷ xs) = ap suc (length-map xs)

  -- Keeping after a map keeps before it.
  pub keep-map :
      (g : B → Bool) (h : A → Bool) (xs : List A)
      → All (λ x. g (f x) ≡ h x) xs
      → keep g (map f xs) ≡ map f (keep h xs)
  keep-map g h [] e = refl
  keep-map g h (x ∷ xs) e = elim (Bool-cases (h x)) [
    | inl t ↦ rw (e.0, t) (ap (◌∷◌ (f x)) (keep-map g h xs (e.1)))
    | inr n ↦ rw (e.0, n) (keep-map g h xs (e.1))
  ]

  pub map_append : (xs ys : List A) → map f (xs ++ ys) ≡ map f xs ++ map f ys
  map_append [] ys = refl
  map_append (x ∷ xs) ys = ap (◌∷◌ (f x)) (map_append xs ys)

  pub map-reverse : (xs : List A) → map f (reverse xs) ≡ reverse (map f xs)
  map-reverse [] = refl
  map-reverse (x ∷ xs) =
      rw
        (
          reverse-cons x xs,
          reverse-cons (f x) (map f xs),
          map_append (reverse xs) (x ∷ []),
          map-reverse xs,
        )
        refl

module _ {ℓ κ} {A : Type ℓ} (P : A → Type κ) where
  pub All-reverse : (xs : List A) → All P xs → All P (reverse xs)
  All-reverse [] h = tt
  All-reverse (x ∷ xs) h =
      rw (reverse-cons x xs) (All-append P (reverse xs) (x ∷ []) (All-reverse xs (h.1)) (h.0, tt))

  pub All-of_append : (xs ys : List A) → All P (xs ++ ys) → All P xs × All P ys
  All-of_append [] ys h = (tt, h)
  All-of_append (x ∷ xs) ys h = let (l, r) = All-of_append xs ys (h.1) in ((h.0, l), r)

  pub All-keep : (f : A → Bool) (xs : List A) → All P xs → All P (keep f xs)
  All-keep f [] h = tt
  All-keep f (x ∷ xs) h = elim (Bool-cases (f x)) [
    | inl t ↦ rw t (h.0, All-keep f xs (h.1))
    | inr n ↦ rw n (All-keep f xs (h.1))
  ]
