-- ===== src/Common/Below.antt =====
-- A test of every number below a bound.
use Prim.Native.Nat.{ℕ, zero, suc, ◌<◌}
use mathlib.Core.Path.{◌≡◌}
use mathlib.Core.Bool.{Bool, true, ◌&&◌}
use native.Mathlib.Decide.{ℕ_discrete}
use native.Mathlib.Omega.{arith}

unfoldable pub all_below : (ℕ → Bool) → ℕ → Bool
all_below p zero = true
all_below p (suc n) = all_below p n && p n

and-left : (a b : Bool) → (a && b) ≡ true → a ≡ true
and-left a b h = ground arith

and-right : (a b : Bool) → (a && b) ≡ true → b ≡ true
and-right a b h = ground arith

pub all_below_lem : (p : ℕ → Bool) (n d : ℕ) → all_below p n ≡ true → d < n → p d ≡ true
unfolding all_below
all_below_lem p zero d all h = absurd (omega arith)
all_below_lem p (suc n) d all h = elim (ℕ_discrete d n) [
  | yes same ↦ rw same (and-right (all_below p n) (p n) all)
  | no differ ↦ all_below_lem p n d (and-left (all_below p n) (p n) all) (omega arith)
]
