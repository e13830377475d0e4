-- ===== src/Pmm/Align.antt =====
-- `align_up` and `align_down`, which kernel/src/pmm.rs, user.rs and arch/x86_64/paging.rs each
-- declare alike.
use mantra_os.Common.{
  ℕ, ◌+◌, ◌-◌, ◌*◌, ◌/◌, ◌%◌, ◌^◌, ◌≤◌, ◌<◌, ◌≡◌, sym, ◌∙◌, ◌==◌, if◌then◌else◌, lt→ltb, ap, arith,
}
use mantra_os.Common.Bits.{bit_and, bit_and-high, two_pow_pos, two_pow_add}
use native.Mathlib.Nat.{div-add-mod, mod-lt, mul-mod_right, pow-le-pow_right}
use mantra_os.Common.Word.{u64_mod, u64_max}
use mantra_os.Common.Run.{Run, done, panic, ◌>>=◌, checked_add}

-- `!m` on u64.
abbrev pub bit_not : ℕ → ℕ
bit_not m = u64_max - m

unfoldable pub align_up : ℕ → ℕ → Run ℕ
align_up x a =
    if a == 0 then done x else do y ← checked_add x (a - 1); done (bit_and y (bit_not (a - 1)))

unfoldable pub align_down : ℕ → ℕ → ℕ
align_down x a = if a == 0 then x else bit_and x (bit_not (a - 1))

mask_page : (x : ℕ) → x < u64_mod → bit_and x (bit_not (4096 - 1)) + x % 4096 ≡ x
mask_page x h = bit_and-high 12 52 u64_mod x (bit_not (4096 - 1)) (omega arith) (omega arith) h

-- A page is found by rounding down.
pub align_down-page : (x : ℕ) → x < u64_mod → align_down x 4096 ≡ x / 4096 * 4096
unfolding align_down
align_down-page x h = omega (arith, mask_page x h)

pub align_up-page : (x : ℕ) → x + 4095 < u64_mod → align_up x 4096 ≡ done ((x + 4095) / 4096 * 4096)
unfolding align_up
align_up-page x h =
    rw (lt→ltb (x + 4095) u64_mod h) (ap done (omega (arith, mask_page (x + 4095) h)))

pub align_up-panic : (x : ℕ) → u64_mod ≤ x + 4095 → align_up x 4096 ≡ panic
unfolding align_up
align_up-panic x h = ground arith

align_up_value :
    (x a s : ℕ)
    → 0 < a
    → align_up x a ≡ done s
    → (s ≡ bit_and (x + (a - 1)) (bit_not (a - 1))) × (x + (a - 1) < u64_mod)
unfolding align_up
align_up_value x a s h e = ground arith

-- For an alignment 2 ^ k with k up to 64, where `align_up` does not overflow, it gives the first
-- multiple of the alignment at or above `x`.
pub align_up_lem :
    (k w x s : ℕ)
    → k + w ≡ 64
    → align_up x (2 ^ k) ≡ done s
    → (x ≤ s) × (s < x + 2 ^ k) × (s % 2 ^ k ≡ 0)
align_up_lem k w x s e q =
    let pos = two_pow_pos k in
    let value = align_up_value x (2 ^ k) s pos q in
    let y : ℕ = x + (2 ^ k - 1) in
    let whole : u64_mod ≡ 2 ^ k * 2 ^ w = ap (λ n. 2 ^ n) (sym e) ∙ two_pow_add k w in
    let small : 2 ^ k ≤ u64_mod =
      pow-le-pow_right {n = 2} (omega arith) {i = k} {j = 64} (omega arith) in
    let split : s + y % 2 ^ k ≡ y =
      rw value.0 (bit_and-high k w u64_mod y (bit_not (2 ^ k - 1)) whole (omega arith) value.1) in
    let multiple : s ≡ 2 ^ k * (y / 2 ^ k) = omega (arith, div-add-mod y (2 ^ k)) in
    (
      omega (arith, mod-lt y pos),
      omega (arith, mod-lt y pos),
      ap (λ t. t % 2 ^ k) multiple ∙ mul-mod_right (2 ^ k) (y / 2 ^ k),
    )
