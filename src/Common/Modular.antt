-- ===== src/Common/Modular.antt =====
-- Places in a ring of `c` slots.
use Prim.Native.Nat.{ℕ, ◌+◌, ◌%◌, ◌≤◌, ◌<◌}
use mathlib.Core.Path.{sym}
use mathlib.Core.Logic.{◌≢◌}
use native.Mathlib.Omega.{arith}
use native.Mathlib.Nat.{div-add-mod}
use native.Mathlib.Decide.{dec_lt}

-- Within one turn of the ring, no two places are the same.
pub mod-ne : (c i j : ℕ) → i < j → j < i + c → i % c ≢ j % c
mod-ne c i j lt near e = grind (arith, div-add-mod i c, div-add-mod j c)

pub mod-ne_window :
    (c lo i j : ℕ) → lo ≤ i → i < lo + c → lo ≤ j → j < lo + c → i ≢ j → i % c ≢ j % c
mod-ne_window c lo i j hi hi' hj hj' ne = elim (dec_lt i j) [
  | yes lt ↦ mod-ne c i j lt (omega arith)
  | no ge ↦ λ e. mod-ne c j i (omega arith) (omega arith) (sym e)
]
