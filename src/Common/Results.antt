-- ===== src/Common/Results.antt =====
-- Rust's `Option` and `Result` chains: `?` is the bind of a `do` block.
use mathlib.Core.Option.{Option, none, some}

pub data Result {ℓ κ} (E : Type κ) (A : Type ℓ) : Type (ℓ ⊔ κ) where
  ok : A → Result E A
  err : E → Result E A

abbrev pub and_then {ℓ κ} : {A : Type ℓ} {B : Type κ} → Option A → (A → Option B) → Option B
and_then none f = none
and_then (some a) f = f a

abbrev pub try_result {ℓ κ ι} :
    {E : Type ι} {A : Type ℓ} {B : Type κ} → Result E A → (A → Result E B) → Result E B
try_result (ok a) f = f a
try_result (err e) f = err e

-- A run of code that may panic, as an index out of range does.
pub data Run {ℓ} (A : Type ℓ) : Type ℓ where
  returns : A → Run A
  panics : Run A

abbrev pub run_then {ℓ κ} : {A : Type ℓ} {B : Type κ} → Run A → (A → Run B) → Run B
run_then (returns a) f = f a
run_then panics f = panics

-- `slice[index]`.
abbrev pub index_or_panic {ℓ} : {A : Type ℓ} → Option A → Run A
index_or_panic none = panics
index_or_panic (some a) = returns a
