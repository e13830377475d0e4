-- ===== src/Arch/Descriptors.antt =====
-- The segment descriptors of kernel/src/arch/x86_64/gdt.rs as the processor reads them.
use mantra_os.Common.{ℕ, ◌+◌, ◌*◌, ◌/◌, ◌%◌, ◌^◌, ◌<◌, ◌≡◌, refl, ap, ◌∙◌, arith}
use mantra_os.Common.Bits.{bit_and, bit_or, bit_and-ones, zero-bit_or}
use mantra_os.Common.Flags.{bit_or-above}
use mantra_os.Arch.Gdt.{tss_low, gdt_tss64, mark_busy}

-- The fields of a system descriptor of 16 bytes.
pub record SystemSegment : Type 0 where
  pub base : ℕ
  pub limit : ℕ
  pub kind : ℕ
  pub storage : ℕ
  pub dpl : ℕ
  pub present : ℕ
  pub granularity : ℕ

-- How the processor reads the two halves.
unfoldable pub system_segment : ℕ × ℕ → SystemSegment
system_segment (low, high) = record {
  base = low / 2 ^ 16 % 2 ^ 24 + low / 2 ^ 56 % 2 ^ 8 * 2 ^ 24 + high % 2 ^ 32 * 2 ^ 32;
  limit = low % 2 ^ 16 + low / 2 ^ 48 % 2 ^ 4 * 2 ^ 16;
  kind = low / 2 ^ 40 % 2 ^ 4;
  storage = low / 2 ^ 44 % 2;
  dpl = low / 2 ^ 45 % 2 ^ 2;
  present = low / 2 ^ 47 % 2;
  granularity = low / 2 ^ 55 % 2;
}

-- The low half as a sum, with the type of the descriptor.
sum_low : ℕ → ℕ → ℕ → ℕ
sum_low kind base limit =
    limit % 2 ^ 16
    + base % 2 ^ 16 * 2 ^ 16
    + base / 2 ^ 16 % 2 ^ 8 * 2 ^ 32
    + kind * 2 ^ 40
    + 1 * 2 ^ 47
    + limit / 2 ^ 16 % 2 ^ 4 * 2 ^ 48
    + base / 2 ^ 24 % 2 ^ 8 * 2 ^ 56

join : (k b a : ℕ) {x : ℕ} → x ≡ b → b < 2 ^ k → bit_or x (a * 2 ^ k) ≡ b + a * 2 ^ k
join k b a e h = ap (λ t. bit_or t (a * 2 ^ k)) e ∙ bit_or-above k b a h

tss_low-eq-sum_low : (base limit : ℕ) → tss_low base limit ≡ sum_low 0x9 base limit
unfolding tss_low sum_low
tss_low-eq-sum_low base limit =
    let l0 : ℕ = limit % 2 ^ 16 in
    let b0 : ℕ = base % 2 ^ 16 in
    let b1 : ℕ = base / 2 ^ 16 % 2 ^ 8 in
    let l1 : ℕ = limit / 2 ^ 16 % 2 ^ 4 in
    let b2 : ℕ = base / 2 ^ 24 % 2 ^ 8 in
    let s1 : ℕ = l0 + b0 * 2 ^ 16 in
    let s2 : ℕ = s1 + b1 * 2 ^ 32 in
    let s3 : ℕ = s2 + 0x9 * 2 ^ 40 in
    let s4 : ℕ = s3 + 1 * 2 ^ 47 in
    let s5 : ℕ = s4 + l1 * 2 ^ 48 in
    rw
      (
        bit_and-ones 16 limit 0xffff refl,
        bit_and-ones 16 base 0xffff refl,
        bit_and-ones 8 (base / 2 ^ 16) 0xff refl,
        bit_and-ones 4 (limit / 2 ^ 16) 0xf refl,
        bit_and-ones 8 (base / 2 ^ 24) 0xff refl,
        zero-bit_or,
      )
      (join 56 s5 b2
        (join 48 s4 l1
          (join 47 s3 1
            (join 40 s2 0x9 (join 32 s1 b1 (join 16 l0 b0 refl (omega arith)) (omega arith))
              (omega arith))
            (omega arith))
          (omega arith))
        (omega arith))

-- A 64-bit TSS of a type, available (0x9) or busy (0xb), that is present, of byte granularity and not
-- open to ring 3.
abbrev pub tss_at : ℕ → ℕ → ℕ → SystemSegment
tss_at kind base limit = record {
  base = base;
  limit = limit;
  kind = kind;
  storage = 0;
  dpl = 0;
  present = 1;
  granularity = 0;
}

system_segment-sum_low :
    (kind base limit : ℕ)
    → kind < 2 ^ 4
    → base < 2 ^ 64
    → limit < 2 ^ 20
    → system_segment (sum_low kind base limit, bit_and (base / 2 ^ 32) 0xffff_ffff)
      ≡ tss_at kind base limit
unfolding system_segment sum_low
system_segment-sum_low kind base limit hk hb hl =
    let high : bit_and (base / 2 ^ 32) 0xffff_ffff ≡ base / 2 ^ 32 % 2 ^ 32 =
      bit_and-ones 32 (base / 2 ^ 32) 0xffff_ffff refl in
    let n : ℕ = sum_low kind base limit in
    let at : n / 2 ^ 16 % 2 ^ 24
          + n / 2 ^ 56 % 2 ^ 8 * 2 ^ 24
          + base / 2 ^ 32 % 2 ^ 32 % 2 ^ 32 * 2 ^ 32
        ≡ base =
      omega arith in
    let size : n % 2 ^ 16 + n / 2 ^ 48 % 2 ^ 4 * 2 ^ 16 ≡ limit = omega arith in
    let type : n / 2 ^ 40 % 2 ^ 4 ≡ kind = omega arith in
    let storage : n / 2 ^ 44 % 2 ≡ 0 = omega arith in
    let dpl : n / 2 ^ 45 % 2 ^ 2 ≡ 0 = omega arith in
    let present : n / 2 ^ 47 % 2 ≡ 1 = omega arith in
    let granularity : n / 2 ^ 55 % 2 ≡ 0 = omega arith in
    rw high (λ i. record {
      base = at i;
      limit = size i;
      kind = type i;
      storage = storage i;
      dpl = dpl i;
      present = present i;
      granularity = granularity i;
    })

-- `ltr` makes an available TSS a busy one.
mark_busy-sum_low : (base limit : ℕ) → mark_busy (sum_low 0x9 base limit) ≡ sum_low 0xb base limit
unfolding sum_low
mark_busy-sum_low base limit =
    let n : ℕ = sum_low 0x9 base limit in
    let available : n / 2 ^ 41 % 2 ≡ 0 = omega arith in rw available (omega arith)

-- For an address below 2^64 and a limit below 2^20, the processor reads in the two halves that
-- `gdt_tss64` packs, once `ltr` has marked them, a busy 64-bit TSS that is present, of byte granularity
-- and not open to ring 3, with that base and that limit.
pub system_segment-gdt_tss64 :
    (base limit : ℕ)
    → base < 2 ^ 64
    → limit < 2 ^ 20
    → system_segment (mark_busy (gdt_tss64 base limit).0, (gdt_tss64 base limit).1)
      ≡ tss_at 0xb base limit
unfolding gdt_tss64
system_segment-gdt_tss64 base limit hb hl =
    rw (tss_low-eq-sum_low base limit, mark_busy-sum_low base limit)
      (system_segment-sum_low 0xb base limit (omega arith) hb hl)
