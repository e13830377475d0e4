-- ===== src/Image/Kernel.antt =====
-- The kernel that boot/src/main.rs leaves in memory.
use mantra_os.Common.{
  ℕ, ◌+◌, ◌-◌, ◌*◌, ◌/◌, ◌%◌, ◌≤◌, ◌<◌, ◌≡◌, inl, inr, sym, subst, ◌∙◌, Bool, not, Bool-cases, List,
  [], ◌∷◌, length, get_or, none, some, All, arith,
}
use mantra_os.Common.Word.{u64_max, u64_mod}
use mantra_os.Common.Run.{done, Run-cases}
use mantra_os.Pmm.Cover.{Outside}
use mantra_os.Memory.{Mem}
use mantra_os.Image.{Segment, load_range, filled, place_segments, Loaded, load_kernel}
use mantra_os.Image.Placement.{
  load_range-pages, Misses, Within, Disjoint, Filled, place_segments-Filled,
}

-- The image: whole pages, with the segments inside.
pub record Holds (bytes : List ℕ) (phs : List Segment) (m : Mem) (l : Loaded) : Type 0 where
  pub pages : (l.load_base % 4096 ≡ 0) × (l.load_end % 4096 ≡ 0) × (l.load_base ≤ l.load_end)
  pub in_word : l.load_end < u64_mod
  pub starts : All (λ ph. l.load_base ≤ ph.vaddr) phs
  pub within : All (Within l.load_base (l.load_end - l.load_base) bytes) phs
  pub filled_in :
      Disjoint phs
      → All
          (λ ph. (k : ℕ) → k < ph.filesz → l.mem (ph.vaddr + k) ≡ get_or bytes (ph.offset + k) 0)
          phs
  pub cleared : (a : ℕ) → l.load_base ≤ a → a < l.load_end → All (Misses a) phs → l.mem a ≡ 0
  pub untouched : (a : ℕ) → Outside l.load_base l.load_end a → l.mem a ≡ m a

-- An address outside `len` bytes that hold the segments is in no segment.
outside-Misses :
    (base len a : ℕ) (bytes : List ℕ) (phs : List Segment)
    → Outside base (base + len) a
    → All (λ ph. base ≤ ph.vaddr) phs
    → All (Within base len bytes) phs
    → All (Misses a) phs
outside-Misses base len a bytes [] out h w = tt
outside-Misses base len a bytes (ph ∷ phs) out h w = (
  elim out [ inl below ↦ inl (omega arith) | inr above ↦ inr (omega (arith, w.0)) ],
  outside-Misses base len a bytes phs out h.1 w.1,
)

-- An address outside the image is in no segment.
pub outside-segments :
    (bytes : List ℕ) (phs : List Segment) (m : Mem) (l : Loaded) (a : ℕ)
    → Holds bytes phs m l
    → Outside l.load_base l.load_end a
    → All (Misses a) phs
outside-segments bytes phs m l a h out =
    let ends : l.load_base + (l.load_end - l.load_base) ≡ l.load_end = omega (arith, h.pages.2) in
    outside-Misses l.load_base (l.load_end - l.load_base) a bytes phs
      (subst (λ e. Outside l.load_base e a) (sym ends) out) h.starts h.within

outside-filled :
    (m : Mem) (base len a : ℕ) → Outside base (base + len) a → filled m base len a ≡ m a
outside-filled m base len a out = ground arith

image-Holds :
    (bytes : List ℕ) (phs : List Segment) (m m' : Mem) (base end : ℕ)
    → length bytes < u64_max
    → load_range phs ≡ done (some (base, end))
    → let len = (end - base) / 4096 * 4096 in
      place_segments bytes base len phs (filled m base len) ≡ done (some m')
      → Holds bytes phs m (record { load_base = base; load_end = end; mem = m' })
image-Holds bytes phs m m' base end hb range put =
    let (low, high, order, top, starts) = load_range-pages phs base end range in
    let len : ℕ = (end - base) / 4096 * 4096 in
    let whole : len ≡ end - base = omega (arith, low, high, order) in
    let ends : base + len ≡ end = omega (arith, whole, order) in
    let w : Filled bytes base len phs (filled m base len) m' =
      place_segments-Filled bytes base len phs (filled m base len) m' hb (omega arith) put in
    record {
      pages = (low, high, order);
      in_word = top;
      starts = starts;
      within = subst (λ n. All (Within base n bytes) phs) whole w.within;
      filled_in = w.filled_in;
      cleared = λ a l u missed. w.kept a missed ∙ ground (arith, ends);
      untouched = λ a out.
          let far : Outside base (base + len) a = subst (λ e. Outside base e a) (sym ends) out in
          w.kept a (outside-Misses base len a bytes phs far starts w.within)
          ∙ outside-filled m base len a far;
    }

-- For a file whose length a `usize` can count past: when `load_kernel` answers an image, the image is
-- whole pages of the address space and every segment lies inside it, with its bytes inside the file; if no segment
-- overwrites the file's bytes of an earlier one, each segment's memory begins with its bytes of the
-- file; every other byte of the image is 0; and no byte outside the image has changed.
pub load_kernel-Holds :
    (allocate : ℕ → ℕ → Bool) (bytes : List ℕ) (phs : List Segment) (m : Mem) (l : Loaded)
    → length bytes < u64_max
    → load_kernel allocate bytes phs m ≡ done (some l)
    → Holds bytes phs m l
unfolding load_kernel
load_kernel-Holds allocate bytes phs m l hb e = elim (Run-cases (load_range phs)) [
  | inl failed ↦ absurd (ground arith)
  | inr (none, failed) ↦ absurd (ground arith)
  | inr (some (base, end), range) ↦
      let len : ℕ = (end - base) / 4096 * 4096 in
      elim (Bool-cases (not (allocate base ((end - base) / 4096)))) [
        | inl refused ↦ absurd (ground arith)
        | inr granted ↦ elim (Run-cases (place_segments bytes base len phs (filled m base len))) [
          | inl failed ↦ absurd (ground arith)
          | inr (none, failed) ↦ absurd (ground arith)
          | inr (some m', put) ↦
              let same : record { load_base = base; load_end = end; mem = m' } ≡ l = ground arith in
              subst (Holds bytes phs m) same (image-Holds bytes phs m m' base end hb range put)
        ]
      ]
]
