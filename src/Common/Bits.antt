-- ===== src/Common/Bits.antt =====
-- Masks: `bit_and` with a run of ones, and `bit_or` of a value and bits below it.
use Prim.Native.Nat.{
  ℕ, zero, suc, ◌+◌, ◌-◌, ◌*◌, ◌/◌, ◌%◌, ◌^◌, ◌≤◌, ◌<◌, min, max, digits, bit_and-bitwise,
  bit_or-bitwise,
}
use mathlib.Core.Path.{◌≡◌, refl, sym, ap, ◌∙◌}
use native.Mathlib.Omega.{arith}
use native.Mathlib.Nat.{
  pow-suc, pow-zero, div-add-mod, mod-lt, mul-add-mod_self_left, mod-eq_of_lt, one-le-pow, mod-one,
  zero-add, suc-add, div-div-eq-div-mul,
}
pub use Prim.Native.Nat.{bit_and, bit_or}

-- Induction on the binary digits of a number.
halving : (P : ℕ → Type 0) → P 0 → ((a : ℕ) → P (a / 2) → P a) → (n a : ℕ) → a ≤ n → P a
halving P base step n zero le = base
halving P base step zero (suc a) le = absurd (omega arith)
halving P base step (suc n) (suc a) le =
    step (suc a) (halving P base step n (suc a / 2) (omega arith))

-- Both operations are a recursion over the digits, on fuel; spare fuel is of no effect.
module _ (last : ℕ → ℕ) (digit : ℕ → ℕ → ℕ) where
  spare_unit :
      (a b fuel : ℕ) → a ≤ fuel → digits last digit (suc fuel) a b ≡ digits last digit fuel a b
  spare_unit zero b zero le = refl
  spare_unit zero b (suc fuel) le = refl
  spare_unit (suc a) b zero le = absurd (omega arith)
  spare_unit (suc a) b (suc fuel) le =
      ap (λ high. high * 2 + digit (suc a % 2) (b % 2))
        (spare_unit (suc a / 2) (b / 2) fuel (omega arith))

  spare : (more a b : ℕ) → digits last digit (more + a) a b ≡ digits last digit a a b
  spare zero a b = ap (λ fuel. digits last digit fuel a b) {y = a} (omega arith)
  spare (suc more) a b =
      ap (λ fuel. digits last digit fuel a b) {y = suc (more + a)} (omega arith)
      ∙ spare_unit a b (more + a) (omega arith)
      ∙ spare more a b

  low_digit :
      (a b : ℕ)
      → digits last digit (suc a) (suc a) b
        ≡ digits last digit (suc a / 2) (suc a / 2) (b / 2) * 2 + digit (suc a % 2) (b % 2)
  low_digit a b =
      let fuel : a ≡ a - suc a / 2 + suc a / 2 = omega arith in
      ap (λ high. high * 2 + digit (suc a % 2) (b % 2))
        (ap (λ n. digits last digit n (suc a / 2) (b / 2)) fuel
          ∙ spare (a - suc a / 2) (suc a / 2) (b / 2))

zero-bit_and : (b : ℕ) → bit_and 0 b ≡ 0
zero-bit_and = bit_and-bitwise 0

pub zero-bit_or : (b : ℕ) → bit_or 0 b ≡ b
zero-bit_or = bit_or-bitwise 0

bit_and_step : (a b : ℕ) → bit_and a b ≡ bit_and (a / 2) (b / 2) * 2 + min (a % 2) (b % 2)
bit_and_step zero b = omega (zero-bit_and b, zero-bit_and (b / 2), arith)
bit_and_step (suc a) b =
    bit_and-bitwise (suc a) b
    ∙ low_digit (λ y. 0) min a b
    ∙ ap (λ high. high * 2 + min (suc a % 2) (b % 2)) (sym (bit_and-bitwise (suc a / 2) (b / 2)))

pub bit_or_step : (a b : ℕ) → bit_or a b ≡ bit_or (a / 2) (b / 2) * 2 + max (a % 2) (b % 2)
bit_or_step zero b = omega (zero-bit_or b, zero-bit_or (b / 2), arith)
bit_or_step (suc a) b =
    bit_or-bitwise (suc a) b
    ∙ low_digit (λ y. y) max a b
    ∙ ap (λ high. high * 2 + max (suc a % 2) (b % 2)) (sym (bit_or-bitwise (suc a / 2) (b / 2)))

pub bit_and-zero : (a : ℕ) → bit_and a 0 ≡ 0
bit_and-zero a =
    halving (λ c. bit_and c 0 ≡ 0) (zero-bit_and 0)
      (λ c half. omega (bit_and_step c 0, half, arith)) a a (omega arith)

pub bit_or-zero : (a : ℕ) → bit_or a 0 ≡ a
bit_or-zero a =
    halving (λ c. bit_or c 0 ≡ c) (zero-bit_or 0) (λ c half. omega (bit_or_step c 0, half, arith)) a
      a (omega arith)

half-mod : (a p : ℕ) → 0 < p → a / 2 % p * 2 + a % 2 ≡ a % (p * 2)
half-mod a p h =
    let rest : ℕ = a / 2 % p * 2 + a % 2 in
    let split : a ≡ p * 2 * (a / 2 / p) + rest = omega (arith, div-add-mod (a / 2) p) in
    let small : rest < p * 2 = omega (arith, mod-lt (a / 2) h) in
    sym (
      ap (λ t. t % (p * 2)) split
      ∙ mul-add-mod_self_left (p * 2) (a / 2 / p) rest
      ∙ mod-eq_of_lt small)

pub two_pow_pos : (k : ℕ) → 0 < 2 ^ k
two_pow_pos k = one-le-pow k 2 (omega arith)

-- A mask of `k` ones keeps the remainder.
pub bit_and-ones : (k a m : ℕ) → m + 1 ≡ 2 ^ k → bit_and a m ≡ a % 2 ^ k
bit_and-ones zero a m e =
    let z : m ≡ 0 = omega (arith, e, pow-zero 2) in rw z (omega (arith, bit_and-zero a, pow-zero 2))
bit_and-ones (suc k) a m e =
    let half : m / 2 + 1 ≡ 2 ^ k = omega (arith, e, pow-suc 2 k, two_pow_pos k) in
    let odd : m % 2 ≡ 1 = omega (arith, e, pow-suc 2 k) in
    rw (pow-suc 2 k) (
      omega (
        arith,
        bit_and_step a m,
        odd,
        bit_and-ones k (a / 2) (m / 2) half,
        half-mod a (2 ^ k) (two_pow_pos k),
      ))

-- A mask whose low `k` bits are clear and whose others are set, in a word with `p` values.
pub bit_and-high :
    (k w p a m : ℕ) → p ≡ 2 ^ k * 2 ^ w → m + 2 ^ k ≡ p → a < p → bit_and a m + a % 2 ^ k ≡ a
bit_and-high zero w p a m e em h =
    let wide : p ≡ 2 ^ w = omega (arith, e, pow-zero 2) in
    let ones : m + 1 ≡ 2 ^ w = omega (arith, em, wide, pow-zero 2) in
    let low : a < 2 ^ w = omega (arith, h, wide) in
    omega (arith, bit_and-ones w a m ones, mod-eq_of_lt low, pow-zero 2, mod-one a)
bit_and-high (suc k) w p a m e em h =
    let p' : ℕ = 2 ^ k * 2 ^ w in
    let dbl : p ≡ p' + p' = e ∙ ap (λ t. t * 2 ^ w) (pow-suc 2 k) ∙ omega arith in
    let em' : m / 2 + 2 ^ k ≡ p' = omega (arith, em, dbl, pow-suc 2 k) in
    let even : m % 2 ≡ 0 = omega (arith, em, dbl, pow-suc 2 k) in
    let ih = bit_and-high k w p' (a / 2) (m / 2) refl em' (omega arith) in
    rw (pow-suc 2 k) (omega (arith, bit_and_step a m, even, ih, half-mod a (2 ^ k) (two_pow_pos k)))

-- Bits below those of a multiple of `2 ^ k` are added.
pub bit_or-add : (k a b : ℕ) → b < 2 ^ k → bit_or (a * 2 ^ k) b ≡ a * 2 ^ k + b
bit_or-add zero a b h =
    let none_below : b ≡ 0 = omega (arith, h, pow-zero 2) in
    rw none_below (bit_or-zero (a * 2 ^ 0) ∙ omega arith)
bit_or-add (suc k) a b h =
    let h' : b / 2 < 2 ^ k = omega (arith, h, pow-suc 2 k) in
    let dbl : a * 2 ^ suc k ≡ a * 2 ^ k + a * 2 ^ k = ap (λ t. a * t) (pow-suc 2 k) ∙ omega arith in
    let half : (a * 2 ^ k + a * 2 ^ k) / 2 ≡ a * 2 ^ k = omega arith in
    let ih = bit_or-add k a (b / 2) h' in
    rw dbl
      (omega (arith, bit_or_step (a * 2 ^ k + a * 2 ^ k) b, ap (λ t. bit_or t (b / 2)) half, ih))

pub two_pow_add : (k w : ℕ) → 2 ^ (k + w) ≡ 2 ^ k * 2 ^ w
two_pow_add zero w = rw zero-add (omega (arith, pow-zero 2))
two_pow_add (suc k) w =
    rw (suc-add, pow-suc 2 (k + w), pow-suc 2 k) (rw (two_pow_add k w) (omega arith))

-- A mask with `k` clear bits below keeps nothing of those bits.
pub bit_and-shifted : (k a b : ℕ) → bit_and a (b * 2 ^ k) ≡ bit_and (a / 2 ^ k) b * 2 ^ k
bit_and-shifted zero a b =
    let same : b * 2 ^ 0 ≡ b = omega (arith, pow-zero 2) in
    let whole : a / 2 ^ 0 ≡ a = omega (arith, pow-zero 2) in
    rw (same, whole) (omega (arith, pow-zero 2))
bit_and-shifted (suc k) a b =
    let dbl : b * 2 ^ suc k ≡ b * 2 ^ k + b * 2 ^ k = ap (λ t. b * t) (pow-suc 2 k) ∙ omega arith in
    let half : (b * 2 ^ k + b * 2 ^ k) / 2 ≡ b * 2 ^ k = omega arith in
    let even : (b * 2 ^ k + b * 2 ^ k) % 2 ≡ 0 = omega arith in
    let deep : a / 2 / 2 ^ k ≡ a / 2 ^ suc k =
      div-div-eq-div-mul a 2 (2 ^ k) ∙ ap (λ t. a / t) (omega (arith, pow-suc 2 k)) in
    let x : ℕ = bit_and (a / 2 ^ suc k) b in
    let twice : x * 2 ^ suc k ≡ x * 2 ^ k + x * 2 ^ k =
      ap (λ t. x * t) (pow-suc 2 k) ∙ omega arith in
    let ih : bit_and (a / 2) (b * 2 ^ k) ≡ x * 2 ^ k =
      bit_and-shifted k (a / 2) b ∙ ap (λ t. bit_and t b * 2 ^ k) deep in
    rw dbl (
      omega (
        arith,
        bit_and_step a (b * 2 ^ k + b * 2 ^ k),
        ap (λ t. bit_and (a / 2) t) half,
        even,
        ih,
        twice,
      ))

lowest_bit : (a : ℕ) → bit_and a 1 ≡ a % 2
lowest_bit a = omega (bit_and_step a 1, bit_and-zero (a / 2), arith)

-- The bits 0 and 2.
pub bit_and_five : (a : ℕ) → bit_and a 5 ≡ a / 4 % 2 * 4 + a % 2
bit_and_five a = omega (arith, bit_and_step a 5, bit_and_step (a / 2) 2, lowest_bit (a / 2 / 2))
