-- ===== src/Pmm/Loops.antt =====
-- The two loops of `init` of kernel/src/pmm.rs over the memory map.
use mantra_os.Common.{
  ℕ, ◌-◌, ◌≤◌, ◌≡◌, sym, subst, ◌∙◌, inl, inr, ◌&&◌, ◌||◌, not, leb, if◌then◌else◌, List, [], ◌∷◌,
  ◌++◌, none, some, length, any, All, All-append, length-append, Bool-cases, Option-cases, arith,
}
use mantra_os.Common.Word.{saturating_add}
use mantra_os.Common.Run.{done, panic, Run-cases}
use mantra_os.Bootinfo.{MemoryRegion}
use mantra_os.Pmm.{
  Range, usable_range, reserved_range, collect, reserve_all, subtract_reserved, max_ranges,
}
use mantra_os.Pmm.Cover.{within, covers, IsPaged, IsLayout}
use mantra_os.Pmm.Subtract.{inside, Subtracted}
use mantra_os.Pmm.Subtract
use mantra_os.Pmm.Init.{
  IsRegion, usable_page, reserved_page, usable_range-none, usable_range-some, reserved_range-none,
  reserved_range-some,
}

-- The first loop collects the whole pages of the usable regions.
pub record Collected (rs : List MemoryRegion) (ranges out : List Range) : Type 0 where
  pub paged : All IsPaged out
  pub fits : length out ≤ max_ranges
  pub exact : (a : ℕ) → covers out a ≡ (covers ranges a || any (λ r. usable_page r a) rs)

collect-none :
    (r : MemoryRegion) (rs : List MemoryRegion) (ranges : List Range) (u : ℕ)
    → usable_range r ≡ done none
    → collect (r ∷ rs) ranges u ≡ collect rs ranges u
unfolding collect
collect-none r rs ranges u e = rw (e, collect)

collect-panic :
    (r : MemoryRegion) (rs : List MemoryRegion) (ranges : List Range) (u : ℕ)
    → usable_range r ≡ panic
    → collect (r ∷ rs) ranges u ≡ panic
unfolding collect
collect-panic r rs ranges u e = rw (e, collect)

collect-some :
    (r : MemoryRegion) (rs : List MemoryRegion) (ranges : List Range) (u : ℕ) (x : Range)
    → usable_range r ≡ done (some x)
    → collect (r ∷ rs) ranges u ≡ (
        if leb max_ranges (length ranges)
        then done none
        else collect rs (ranges ++ x ∷ []) (saturating_add u (x.end - x.base)))
unfolding collect
collect-some r rs ranges u x e = rw (e, collect)

covers-snoc :
    (xs : List Range) (x : Range) (a : ℕ) → covers (xs ++ x ∷ []) a ≡ (covers xs a || within x a)
covers-snoc [] x a = ground arith
covers-snoc (y ∷ xs) x a = ground (arith, covers-snoc xs x a)

pub collect-Collected :
    (rs : List MemoryRegion) (ranges : List Range) (u u' : ℕ) {out : List Range}
    → All IsRegion rs
    → All IsPaged ranges
    → length ranges ≤ max_ranges
    → collect rs ranges u ≡ done (some (out, u'))
    → Collected rs ranges out
unfolding collect
collect-Collected [] ranges u u' {out} h g l e =
    let same : ranges ≡ out = ground arith in
    subst (Collected [] ranges) same (record { paged = g; fits = l; exact = λ a. ground arith })
collect-Collected (r ∷ rs) ranges u u' {out} h g l e = elim (Run-cases (usable_range r)) [
  | inl p ↦ absurd (ground (arith, collect-panic r rs ranges u p))
  | inr (none, p) ↦
      let rest =
        collect-Collected rs ranges u u' h.1 g l (sym (collect-none r rs ranges u p) ∙ e) in
      record {
        paged = rest.paged;
        fits = rest.fits;
        exact = λ a. ground (arith, rest.exact a, usable_range-none r a h.0 p);
      }
  | inr (some x, p) ↦ elim (Bool-cases (leb max_ranges (length ranges))) [
    | inl full ↦ absurd (ground (arith, collect-some r rs ranges u x p))
    | inr room ↦
        let rest =
          collect-Collected rs (ranges ++ x ∷ []) (saturating_add u (x.end - x.base)) u' h.1
            (All-append IsPaged ranges (x ∷ []) g ((usable_range-some r x 0 h.0 p).0, tt))
            (ground (arith, length-append ranges (x ∷ [])))
            (ground (arith, collect-some r rs ranges u x p)) in
        record {
          paged = rest.paged;
          fits = rest.fits;
          exact = λ a.
              ground (arith, rest.exact a, usable_range-some r x a h.0 p, covers-snoc ranges x a);
        }
  ]
]

-- The second loop takes the pages out that a region which is not usable touches.
pub record Carved (rs : List MemoryRegion) (ranges out : List Range) : Type 0 where
  pub layout : IsLayout 0 out
  pub fits : length out ≤ max_ranges
  pub exact : (a : ℕ) → covers out a ≡ (covers ranges a && not (any (λ r. reserved_page r a) rs))

reserve_all-none :
    (r : MemoryRegion) (rs : List MemoryRegion) (ranges : List Range)
    → reserved_range r ≡ done none
    → reserve_all (r ∷ rs) ranges ≡ reserve_all rs ranges
unfolding reserve_all
reserve_all-none r rs ranges e = rw (e, reserve_all)

reserve_all-panic :
    (r : MemoryRegion) (rs : List MemoryRegion) (ranges : List Range)
    → reserved_range r ≡ panic
    → reserve_all (r ∷ rs) ranges ≡ panic
unfolding reserve_all
reserve_all-panic r rs ranges e = rw (e, reserve_all)

reserve_all_full :
    (r : MemoryRegion) (rs : List MemoryRegion) (ranges : List Range) (x : Range)
    → reserved_range r ≡ done (some x)
    → subtract_reserved ranges x.base x.end ≡ none
    → reserve_all (r ∷ rs) ranges ≡ done none
unfolding reserve_all
reserve_all_full r rs ranges x e f = ground arith

reserve_all-some :
    (r : MemoryRegion) (rs : List MemoryRegion) (ranges ranges' : List Range) (x : Range)
    → reserved_range r ≡ done (some x)
    → subtract_reserved ranges x.base x.end ≡ some ranges'
    → reserve_all (r ∷ rs) ranges ≡ reserve_all rs ranges'
unfolding reserve_all
reserve_all-some r rs ranges ranges' x e f = ground arith

pub reserve_all-Carved :
    (rs : List MemoryRegion) (ranges : List Range) {out : List Range}
    → All IsRegion rs
    → IsLayout 0 ranges
    → length ranges ≤ max_ranges
    → reserve_all rs ranges ≡ done (some out)
    → Carved rs ranges out
unfolding reserve_all
reserve_all-Carved [] ranges {out} h g l e =
    let same : ranges ≡ out = ground arith in
    subst (Carved [] ranges) same (record { layout = g; fits = l; exact = λ a. ground arith })
reserve_all-Carved (r ∷ rs) ranges {out} h g l e = elim (Run-cases (reserved_range r)) [
  | inl p ↦ absurd (ground (arith, reserve_all-panic r rs ranges p))
  | inr (none, p) ↦
      let rest = reserve_all-Carved rs ranges h.1 g l (sym (reserve_all-none r rs ranges p) ∙ e) in
      record {
        layout = rest.layout;
        fits = rest.fits;
        exact = λ a. ground (arith, rest.exact a, reserved_range-none r a h.0 p);
      }
  | inr (some x, p) ↦ elim (Option-cases (subtract_reserved ranges x.base x.end)) [
    | inl full ↦ absurd (ground (arith, reserve_all_full r rs ranges x p full))
    | inr (ranges', q) ↦
        let sub =
          Subtract.subtract_lem ranges x.base x.end (reserved_range-some r x 0 h.0 p).0
            (reserved_range-some r x 0 h.0 p).1 (reserved_range-some r x 0 h.0 p).2 g l q in
        let rest =
          reserve_all-Carved rs ranges' h.1 sub.layout sub.fits
            (sym (reserve_all-some r rs ranges ranges' x p q) ∙ e) in
        record {
          layout = rest.layout;
          fits = rest.fits;
          exact = λ a. ground (arith, rest.exact a, reserved_range-some r x a h.0 p, sub.exact a);
        }
  ]
]
