-- ===== src/Memory/Words.antt =====
-- Words and cleared pages in the physical memory of kernel/src/user.rs: what a read finds after a
-- write.
use mantra_os.Common.{
  ℕ, ◌+◌, ◌-◌, ◌*◌, ◌/◌, ◌%◌, ◌^◌, ◌≤◌, ◌<◌, ◌≡◌, ◌⊎◌, inl, inr, refl, sym, ap, subst, ◌∙◌, arith,
}
use mantra_os.Memory.{Mem, read_u64, write_u64}

byte_of : (m : Mem) (p v k : ℕ) → k < 8 → write_u64 m p v (p + k) ≡ v / 2 ^ (8 * k) % 256
unfolding write_u64
byte_of m p v k h =
    let at : p + k - p ≡ k = omega arith in
    let here : v / 2 ^ (8 * (p + k - p)) % 256 ≡ v / 2 ^ (8 * k) % 256 =
      ap (λ j. v / 2 ^ (8 * j) % 256) at in
    ground arith

byte_elsewhere : (m : Mem) (p v q : ℕ) → ((q < p) ⊎ (p + 8 ≤ q)) → write_u64 m p v q ≡ m q
unfolding write_u64
byte_elsewhere m p v q far = ground arith

digits_256 :
    (v : ℕ)
    → v % 256
        + 2 ^ 8 * (v / 2 ^ 8 % 256)
        + 2 ^ 16 * (v / 2 ^ 16 % 256)
        + 2 ^ 24 * (v / 2 ^ 24 % 256)
        + 2 ^ 32 * (v / 2 ^ 32 % 256)
        + 2 ^ 40 * (v / 2 ^ 40 % 256)
        + 2 ^ 48 * (v / 2 ^ 48 % 256)
        + 2 ^ 56 * (v / 2 ^ 56 % 256)
      ≡ v % 2 ^ 64
digits_256 v = omega arith

pub read_u64-ext :
    (m m' : Mem) (q : ℕ) → ((k : ℕ) → k < 8 → m' (q + k) ≡ m (q + k)) → read_u64 m' q ≡ read_u64 m q
unfolding read_u64
read_u64-ext m m' q same =
    let start : q + 0 ≡ q = omega arith in
    let b0 : m' q ≡ m q = subst (λ a. m' a ≡ m a) start (same 0 (omega arith)) in
    rw
      (
        b0,
        same 1 (omega arith),
        same 2 (omega arith),
        same 3 (omega arith),
        same 4 (omega arith),
        same 5 (omega arith),
        same 6 (omega arith),
        same 7 (omega arith),
      )
      refl

pub read_u64-zero : (m : Mem) (q : ℕ) → ((k : ℕ) → k < 8 → m (q + k) ≡ 0) → read_u64 m q ≡ 0
unfolding read_u64
read_u64-zero m q clear = read_u64-ext (λ a. 0) m q clear

pub read-write_self : (m : Mem) (p v : ℕ) → read_u64 (write_u64 m p v) p ≡ v % 2 ^ 64
unfolding read_u64
read-write_self m p v =
    let start : p + 0 ≡ p = omega arith in
    let b0 : write_u64 m p v p ≡ v % 256 =
      ap (write_u64 m p v) (sym start) ∙ byte_of m p v 0 (omega arith) ∙ omega arith in
    rw
      (
        b0,
        byte_of m p v 1 (omega arith),
        byte_of m p v 2 (omega arith),
        byte_of m p v 3 (omega arith),
        byte_of m p v 4 (omega arith),
        byte_of m p v 5 (omega arith),
        byte_of m p v 6 (omega arith),
        byte_of m p v 7 (omega arith),
      )
      (digits_256 v)

pub read-write_far :
    (m : Mem) (p v q : ℕ)
    → ((q + 8 ≤ p) ⊎ (p + 8 ≤ q))
    → read_u64 (write_u64 m p v) q ≡ read_u64 m q
read-write_far m p v q far = read_u64-ext m (write_u64 m p v) q (λ k h.
    byte_elsewhere m p v (q + k)
      (elim far [ inl below ↦ inl (omega arith) | inr above ↦ inr (omega arith) ]))
