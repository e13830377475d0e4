-- ===== src/Image/Placement.antt =====
-- Where boot/src/main.rs puts the kernel.
use mantra_os.Common.{
  ℕ, ◌+◌, ◌-◌, ◌%◌, ◌≤◌, ◌<◌, min, max, ◌≡◌, inl, inr, sym, ap, ◌∙◌, List, [], ◌∷◌, length, get_or,
  none, some, All, arith,
}
use native.Mathlib.Nat.{le_trans}
use mantra_os.Common.Bits.{bit_and, bit_and-high}
use mantra_os.Common.Word.{u64_mod, u64_max, saturating_add}
use mantra_os.Common.Run.{done, Run-cases}
use mantra_os.Pmm.Align.{bit_not}
use mantra_os.Pmm.Cover.{Outside}
use mantra_os.Memory.{Mem}
use mantra_os.Image.{Segment, span, load_range, copied, place_segment, place_segments}

-- The loop's answer bounds what it started from and every segment.
span-bounds :
    (lo hi : ℕ) (phs : List Segment)
    → ((span lo hi phs).0 ≤ lo)
      × (hi ≤ (span lo hi phs).1)
      × All (λ ph. (span lo hi phs).0 ≤ ph.vaddr) phs
unfolding span
span-bounds lo hi [] = (omega arith, omega arith, tt)
span-bounds lo hi (ph ∷ phs) =
    let rest = span-bounds (min lo ph.vaddr) (max hi (saturating_add ph.vaddr ph.memsz)) phs in
    (omega (arith, rest.0), omega (arith, rest.1), (omega (arith, rest.0), rest.2))

All-mono :
    {A : Type 0} (P Q : A → Type 0) (xs : List A) → ((x : A) → P x → Q x) → All P xs → All Q xs
All-mono P Q [] f h = tt
All-mono P Q (x ∷ xs) f h = (f x h.0, All-mono P Q xs f h.1)

mask_page : (x : ℕ) → x < u64_mod → bit_and x (bit_not 0xfff) + x % 4096 ≡ x
mask_page x h = bit_and-high 12 52 u64_mod x (bit_not 0xfff) (omega arith) (omega arith) h

-- Whole pages, from at most the lowest address on.
pub load_range-pages :
    (phs : List Segment) (base end : ℕ)
    → load_range phs ≡ done (some (base, end))
    → (base % 4096 ≡ 0)
      × (end % 4096 ≡ 0)
      × (base ≤ end)
      × (end < u64_mod)
      × All (λ ph. base ≤ ph.vaddr) phs
unfolding load_range
load_range-pages phs base end e =
    let lo : ℕ = (span u64_max 0 phs).0 in
    let hi : ℕ = (span u64_max 0 phs).1 in
    let bounds = span-bounds u64_max 0 phs in
    let values : (base ≡ bit_and lo (bit_not 0xfff))
        × (end ≡ bit_and (hi + 0xfff) (bit_not 0xfff))
        × (lo < hi)
        × (hi + 0xfff < u64_mod) =
      (ground arith, ground arith, ground arith, ground arith) in
    let low = mask_page lo (omega (arith, bounds.0)) in
    let high = mask_page (hi + 0xfff) values.3 in
    let first : base ≤ lo = omega (arith, low, values.0) in
    (
      omega (arith, low, values.0),
      omega (arith, high, values.1),
      omega (arith, low, high, values),
      omega (arith, high, values),
      All-mono (λ ph. lo ≤ ph.vaddr) (λ ph. base ≤ ph.vaddr) phs (λ ph le. le_trans first le)
          bounds.2,
    )

-- The address is not in the part of the segment that the file has.
abbrev pub Misses : ℕ → Segment → Type 0
Misses a ph = Outside ph.vaddr (ph.vaddr + ph.filesz) a

-- The segment lies in the `len` bytes at `base`, and its bytes in the file.
abbrev pub Within : ℕ → ℕ → List ℕ → Segment → Type 0
Within base len bytes ph =
    (ph.filesz ≤ ph.memsz)
    × (ph.offset + ph.filesz ≤ length bytes)
    × (ph.vaddr + ph.memsz ≤ base + len)

-- What the body of the loop has done when it goes on.
place-done :
    (bytes : List ℕ) (base len : ℕ) (ph : Segment) (m m' : Mem)
    → length bytes < u64_max
    → len < u64_max
    → place_segment bytes base len ph m ≡ done (some m')
    → (Within base len bytes ph) × (m' ≡ copied m ph.vaddr bytes ph.offset ph.filesz)
unfolding place_segment
place-done bytes base len ph m m' hb hl e =
    let there : base ≤ ph.vaddr = ground arith in
    let dst : base + (ph.vaddr - base) ≡ ph.vaddr = omega arith in
    let put : copied m (base + (ph.vaddr - base)) bytes ph.offset ph.filesz ≡ m' = ground arith in
    (
      (ground arith, ground arith, ground arith),
      sym put ∙ ap (λ d. copied m d bytes ph.offset ph.filesz) dst,
    )

copied-Misses :
    (m : Mem) (bytes : List ℕ) (ph : Segment) (a : ℕ)
    → Misses a ph
    → copied m ph.vaddr bytes ph.offset ph.filesz a ≡ m a
copied-Misses m bytes ph a out = ground arith

copied-hits :
    (m : Mem) (bytes : List ℕ) (ph : Segment) (k : ℕ)
    → k < ph.filesz
    → copied m ph.vaddr bytes ph.offset ph.filesz (ph.vaddr + k) ≡ get_or bytes (ph.offset + k) 0
copied-hits m bytes ph k h =
    let at : ph.vaddr + k - ph.vaddr ≡ k = omega arith in
    let value : get_or bytes (ph.offset + (ph.vaddr + k - ph.vaddr)) 0
        ≡ get_or bytes (ph.offset + k) 0 =
      ap (λ j. get_or bytes (ph.offset + j) 0) at in
    ground arith

-- Each segment's bytes from the file are not written by a later one.
abbrev pub Disjoint : List Segment → Type 0
Disjoint [] = Unit {0}
Disjoint (ph ∷ phs) = ((k : ℕ) → k < ph.filesz → All (Misses (ph.vaddr + k)) phs) × Disjoint phs

-- What the second loop leaves.
pub record Filled (bytes : List ℕ) (base len : ℕ) (phs : List Segment) (m m' : Mem) : Type 0 where
  pub within : All (Within base len bytes) phs
  pub kept : (a : ℕ) → All (Misses a) phs → m' a ≡ m a
  pub filled_in :
      Disjoint phs
      → All (λ ph. (k : ℕ) → k < ph.filesz → m' (ph.vaddr + k) ≡ get_or bytes (ph.offset + k) 0) phs

pub place_segments-Filled :
    (bytes : List ℕ) (base len : ℕ) (phs : List Segment) (m m' : Mem)
    → length bytes < u64_max
    → len < u64_max
    → place_segments bytes base len phs m ≡ done (some m')
    → Filled bytes base len phs m m'
unfolding place_segments
place_segments-Filled bytes base len [] m m' hb hl e =
    let same : m ≡ m' = ground arith in
    record { within = tt; kept = λ a h. ap (λ n. n a) (sym same); filled_in = λ d. tt }
place_segments-Filled bytes base len (ph ∷ phs) m m' hb hl e =
    elim (Run-cases (place_segment bytes base len ph m)) [
      | inl failed ↦ absurd (ground arith)
      | inr (none, failed) ↦ absurd (ground arith)
      | inr (some m1, put) ↦
          let (fits, value) = place-done bytes base len ph m m1 hb hl put in
          let rest : Filled bytes base len phs m1 m' =
            place_segments-Filled bytes base len phs m1 m' hb hl (ground arith) in
          record {
            within = (fits, rest.within);
            kept = λ a h. rest.kept a h.1 ∙ ap (λ n. n a) value ∙ copied-Misses m bytes ph a h.0;
            filled_in = λ d. (
              λ k hk.
                  rest.kept (ph.vaddr + k) (d.0 k hk)
                  ∙ ap (λ n. n (ph.vaddr + k)) value
                  ∙ copied-hits m bytes ph k hk,
              rest.filled_in d.1,
            );
          }
    ]
