-- ===== src/Pmm/Build.antt =====
-- `init` of kernel/src/pmm.rs as a whole.
use mantra_os.Common.{
  ℕ, ◌^◌, ◌≤◌, ◌≡◌, ◌≢◌, refl, sym, subst, ap, ◌∙◌, inl, inr, ◌&&◌, not, leb, List, [], ◌∷◌, none,
  some, length, any, All, Option-cases, arith,
}
use native.Mathlib.Nat.{le_trans}
use mantra_os.Common.Run.{done, Run-cases}
use mantra_os.Bootinfo.{MemoryRegion}
use mantra_os.Pmm.{
  Range, Pmm, PmmStats, collect, reserve_all, subtract_reserved, finish, installed, init,
  drop_empty, low_memory, max_ranges, sort_by_base, merge_adjacent,
}
use mantra_os.Pmm.Cover.{covers, Ascending, IsPaged, IsLayout}
use mantra_os.Pmm.Sort
use mantra_os.Pmm.Merge
use mantra_os.Pmm.Subtract.{inside, Subtracted}
use mantra_os.Pmm.Subtract
use mantra_os.Pmm.Init.{IsRegion, usable_page, reserved_page}
use mantra_os.Pmm.Loops.{Collected, collect-Collected, Carved, reserve_all-Carved}

bases-below : (rs : List Range) → All IsPaged rs → All (λ r. r.base ≤ 2 ^ 64) rs
bases-below [] h = tt
bases-below (r ∷ rs) h = (omega arith, bases-below rs h.1)

-- What `init` has set up when it returns `Ok`.
pub record Built (regions : List MemoryRegion) (pmm : Pmm) (stats : PmmStats) : Type 0 where
  pub layout : IsLayout 0 pmm.ranges
  pub fits : length pmm.ranges ≤ max_ranges
  pub at_start : pmm.cursor ≡ 0
  pub some_free : pmm.ranges ≢ []
  pub exact :
      (a : ℕ)
      → covers pmm.ranges a ≡ (
          any (λ r. usable_page r a) regions
          && (not (any (λ r. reserved_page r a) regions) && leb low_memory a))

drop_empty-layout : (rs : List Range) (lo : ℕ) → IsLayout lo rs → drop_empty rs ≡ rs
unfolding drop_empty
drop_empty-layout [] lo s = refl
drop_empty-layout (r ∷ rs) lo s = ground (arith, drop_empty-layout rs r.end s.2)

installed-Built :
    (regions : List MemoryRegion) (ranges : List Range) (u : ℕ) {pmm : Pmm} {stats : PmmStats}
    → IsLayout 0 ranges
    → length ranges ≤ max_ranges
    → ((a : ℕ)
        → covers ranges a ≡ (
            any (λ r. usable_page r a) regions
            && (not (any (λ r. reserved_page r a) regions) && leb low_memory a)))
    → installed ranges u ≡ some (pmm, stats)
    → Built regions pmm stats
installed-Built regions [] u s l c e = absurd (ground arith)
installed-Built regions (r ∷ rs) u {pmm} {stats} s l c e =
    let same : r ∷ rs ≡ pmm.ranges = ground arith in
    record {
      layout = subst (IsLayout 0) same s;
      fits = subst (λ t. length t ≤ max_ranges) same l;
      at_start = ground arith;
      some_free = λ z. cc;
      exact = λ a. sym (ap (λ t. covers t a) same) ∙ c a;
    }

-- The part of `init` after the first loop, when it returns `Ok`.
finish-inv :
    (regions : List MemoryRegion) (ranges : List Range) (u : ℕ) {out : Pmm × PmmStats}
    → finish regions ranges u ≡ done (some out)
    → (carved last : List Range) × (reserve_all regions (merge_adjacent (sort_by_base ranges))
        ≡ done (some carved))
      × (subtract_reserved carved 0 low_memory ≡ some last)
      × (installed (drop_empty last) u ≡ some out)
unfolding finish
finish-inv regions [] u e = absurd (ground arith)
finish-inv regions (r ∷ rs) u e =
    elim (Run-cases (reserve_all regions (merge_adjacent (sort_by_base (r ∷ rs))))) [
      | inl p ↦ absurd (ground arith)
      | inr (none, p) ↦ absurd (ground arith)
      | inr (some carved, p) ↦ elim (Option-cases (subtract_reserved carved 0 low_memory)) [
        | inl q ↦ absurd (ground arith)
        | inr (last, q) ↦ (carved, last, p, q, ground arith)
      ]
    ]

init-inv :
    (regions : List MemoryRegion) {out : Pmm × PmmStats}
    → init regions ≡ done (some out)
    → (ranges : List Range) × (u : ℕ) × (collect regions [] 0 ≡ done (some (ranges, u)))
      × (finish regions ranges u ≡ done (some out))
unfolding init
init-inv regions e = elim (Run-cases (collect regions [] 0)) [
  | inl p ↦ absurd (ground arith)
  | inr (none, p) ↦ absurd (ground arith)
  | inr (some (ranges, u), p) ↦ (ranges, u, p, ground arith)
]

-- Where `init` returns `Ok`, on a memory map whose fields are u64: the free ranges are at least one
-- and at most 128, of whole pages, in order of address and disjoint, and the cursor is at the
-- first; and they hold exactly the addresses at or above 1 MiB whose whole page lies in one usable
-- region and whose page meets no region of another kind.
pub init-Built :
    (regions : List MemoryRegion) (pmm : Pmm) (stats : PmmStats)
    → All IsRegion regions
    → init regions ≡ done (some (pmm, stats))
    → Built regions pmm stats
init-Built regions pmm stats h e =
    let (ranges, u, ec, ef) = init-inv regions e in
    let (carved, last, er, es, ei) = finish-inv regions ranges u ef in
    let got : Collected regions [] ranges =
      collect-Collected regions [] 0 u h tt (omega arith) ec in
    let paged : All IsPaged (sort_by_base ranges) =
      Sort.All-sort_by_base IsPaged ranges got.paged in
    let sorted : Ascending 0 (sort_by_base ranges) =
      Sort.Ascending-sort_by_base ranges (2 ^ 64) (bases-below ranges got.paged) in
    let cut : Carved regions (merge_adjacent (sort_by_base ranges)) carved =
      reserve_all-Carved regions (merge_adjacent (sort_by_base ranges)) h
        (Merge.IsLayout-merge_adjacent (sort_by_base ranges) sorted paged)
        (le_trans (Merge.length-merge_adjacent (sort_by_base ranges))
          (subst (λ n. n ≤ max_ranges) (sym (Sort.length-sort_by_base ranges)) got.fits))
        er in
    let sub : Subtracted carved 0 low_memory last =
      Subtract.subtract_lem carved 0 low_memory (omega arith) (omega arith) (omega arith) cut.layout
        cut.fits es in
    installed-Built regions last u sub.layout sub.fits
      (λ a. ground (
        arith,
        got.exact a,
        Sort.covers-sort_by_base ranges a,
        Merge.covers-merge_adjacent (sort_by_base ranges) a sorted paged,
        cut.exact a,
        sub.exact a,
      ))
      (ap (λ t. installed t u) (sym (drop_empty-layout last 0 sub.layout)) ∙ ei)
