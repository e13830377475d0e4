-- ===== src/Common/Run.antt =====
-- A computation that may panic. The repository's build script makes a dev build, in which an
-- arithmetic overflow panics, as `expect` on `None` does; a panic halts the machine.
use Prim.Native.Nat.{ℕ, ◌+◌, ◌*◌}
use mathlib.Core.Path.{◌≡◌, refl, ap}
use mathlib.Core.Logic.{◌⊎◌, inl, inr}
use mantra_os.Common.Tests.{ltb, if◌then◌else◌}
use mantra_os.Common.Word.{u64_mod}

pub data Run {ℓ} (A : Type ℓ) : Type ℓ where
  panic : Run A
  done : A → Run A

infixl 5 ◌>>=◌ ◌>>◌
abbrev pub ◌>>=◌ {ℓ κ} : {A : Type ℓ} {B : Type κ} → Run A → (A → Run B) → Run B
panic >>= rest = panic
done v >>= rest = rest v

abbrev pub ◌>>◌ {ℓ} : {B : Type ℓ} → Run (Unit {0}) → Run B → Run B
m >> k = m >>= λ _. k

-- `a + b` on u64 with overflow checks.
abbrev pub checked_add : ℕ → ℕ → Run ℕ
checked_add a b = if ltb (a + b) u64_mod then done (a + b) else panic

abbrev pub checked_mul : ℕ → ℕ → Run ℕ
checked_mul a b = if ltb (a * b) u64_mod then done (a * b) else panic

pub Run-cases {ℓ} : {A : Type ℓ} (m : Run A) → (m ≡ panic) ⊎ ((a : A) × (m ≡ done a))
Run-cases panic = inl refl
Run-cases (done a) = inr (a, refl)

-- Inversion of a bind that returns.
pub >>=-eq-done {ℓ κ} :
    {A : Type ℓ} {B : Type κ} (m : Run A) (f : A → Run B) {b : B}
    → (m >>= f) ≡ done b
    → (a : A) × (m ≡ done a) × (f a ≡ done b)
>>=-eq-done (done a) f h = (a, refl, h)
>>=-eq-done panic f h = cc

value_or {ℓ} : {A : Type ℓ} → A → Run A → A
value_or d panic = d
value_or d (done a) = a

pub done-injective {ℓ} : {A : Type ℓ} (a b : A) → done a ≡ done b → a ≡ b
unfolding value_or
done-injective a b e = ap (value_or a) e
