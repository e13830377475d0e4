-- ===== src/Common/Flags.antt =====
-- Flags in the low bits of a word: what `bit_or` leaves above them, and in bit 0.
use Prim.Native.Nat.{ℕ, zero, suc, ◌+◌, ◌*◌, ◌/◌, ◌%◌, ◌^◌, ◌≤◌, ◌<◌, max}
use mathlib.Core.Path.{◌≡◌, refl, sym, ap, ap₂, ◌∙◌}
use native.Mathlib.Omega.{arith}
use native.Mathlib.Nat.{pow-suc, pow-zero, div-div-eq-div-mul, div-eq_of_lt}
use mantra_os.Common.Bits.{bit_or, bit_or_step, bit_or-zero, bit_or-add}

-- The bits from `k` on.
pub bit_or-shifted : (k a b : ℕ) → bit_or a b / 2 ^ k ≡ bit_or (a / 2 ^ k) (b / 2 ^ k)
bit_or-shifted zero a b =
    let whole : (c : ℕ) → c / 2 ^ 0 ≡ c = λ c. omega (arith, pow-zero 2) in
    rw (whole a, whole b) (whole (bit_or a b))
bit_or-shifted (suc k) a b =
    let half : bit_or a b / 2 ≡ bit_or (a / 2) (b / 2) = omega (arith, bit_or_step a b) in
    let twice : 2 ^ suc k ≡ 2 * 2 ^ k = omega (arith, pow-suc 2 k) in
    let deep : (c : ℕ) → c / 2 / 2 ^ k ≡ c / (2 * 2 ^ k) = λ c. div-div-eq-div-mul c 2 (2 ^ k) in
    rw twice (
      sym (deep (bit_or a b))
      ∙ ap (λ t. t / 2 ^ k) half
      ∙ bit_or-shifted k (a / 2) (b / 2)
      ∙ ap₂ bit_or (deep a) (deep b))

-- Above the flags the word is as it was.
pub bit_or-high : (k a b : ℕ) → b < 2 ^ k → bit_or a b / 2 ^ k ≡ a / 2 ^ k
bit_or-high k a b h =
    bit_or-shifted k a b ∙ ap (bit_or (a / 2 ^ k)) (div-eq_of_lt h) ∙ bit_or-zero (a / 2 ^ k)

pub bit_or_low : (a b : ℕ) → bit_or a b % 2 ≡ max (a % 2) (b % 2)
bit_or_low a b = omega (arith, bit_or_step a b)

bit_or_half : (a b : ℕ) → bit_or a b / 2 ≡ bit_or (a / 2) (b / 2)
bit_or_half a b = omega (arith, bit_or_step a b)

bit_or_assoc_up_to :
    (n a b c : ℕ) → a ≤ n → b ≤ n → c ≤ n → bit_or (bit_or a b) c ≡ bit_or a (bit_or b c)
bit_or_assoc_up_to zero a b c ha hb hc =
    let a0 : a ≡ 0 = omega arith in
    let b0 : b ≡ 0 = omega arith in let c0 : c ≡ 0 = omega arith in rw (a0, b0, c0) refl
bit_or_assoc_up_to (suc n) a b c ha hb hc =
    let ih =
      bit_or_assoc_up_to n (a / 2) (b / 2) (c / 2) (omega arith) (omega arith) (omega arith) in
    let left : bit_or (bit_or a b / 2) (c / 2) ≡ bit_or (a / 2) (bit_or b c / 2) =
      ap (λ t. bit_or t (c / 2)) (bit_or_half a b)
      ∙ ih
      ∙ ap (bit_or (a / 2)) (sym (bit_or_half b c)) in
    omega (
      arith,
      bit_or_step (bit_or a b) c,
      bit_or_step a (bit_or b c),
      left,
      bit_or_low a b,
      bit_or_low b c,
    )

pub bit_or_assoc : (a b c : ℕ) → bit_or (bit_or a b) c ≡ bit_or a (bit_or b c)
bit_or_assoc a b c =
    bit_or_assoc_up_to (a + (b + c)) a b c (omega arith) (omega arith) (omega arith)

bit_or_comm_up_to : (n a b : ℕ) → a ≤ n → b ≤ n → bit_or a b ≡ bit_or b a
bit_or_comm_up_to zero a b ha hb =
    let a0 : a ≡ 0 = omega arith in let b0 : b ≡ 0 = omega arith in rw (a0, b0) refl
bit_or_comm_up_to (suc n) a b ha hb =
    let ih = bit_or_comm_up_to n (a / 2) (b / 2) (omega arith) (omega arith) in
    omega (arith, bit_or_step a b, bit_or_step b a, ih)

bit_or_comm : (a b : ℕ) → bit_or a b ≡ bit_or b a
bit_or_comm a b = bit_or_comm_up_to (a + b) a b (omega arith) (omega arith)

-- Bits from `k` on are added to a number below them.
pub bit_or-above : (k b a : ℕ) → b < 2 ^ k → bit_or b (a * 2 ^ k) ≡ b + a * 2 ^ k
bit_or-above k b a h = bit_or_comm b (a * 2 ^ k) ∙ bit_or-add k a b h ∙ omega arith
