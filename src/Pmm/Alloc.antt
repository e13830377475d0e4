-- ===== src/Pmm/Alloc.antt =====
-- `alloc_pages` of kernel/src/pmm.rs: what a block is, what is left, and when there is none.
use mantra_os.Common.{
  ℕ, zero, suc, ◌+◌, ◌*◌, ◌^◌, ◌≤◌, ◌<◌, ◌≡◌, ◌⊎◌, refl, sym, subst, ap, ◌∙◌, inl, inr, Bool, List,
  ◌∷◌, Option, none, some, length, get_elem?, All, drop-all, get_elem?-none_le, get_elem?-none,
  Option-cases, arith,
}
use mathlib.Core.Path.{subst₂}
use mantra_os.Pmm.{Range, Pmm, skip, taken, try_range, alloc_loop, alloc_pages}
use mantra_os.Pmm.Pool.{
  IsPool, Granted, IsPool-weaken, remaining, try_range-taken, try_range-skip, alloc_loop_end,
  advance, alloc_loop_skip, after_taking, alloc_loop_taken, Round-cases, remaining-advance,
  remaining-after_taking, cut-Granted,
}

taken-Granted :
    (pages : ℕ) (pmm : Pmm) (r r' : Range) (p : ℕ) (full : Bool)
    → IsPool 0 (remaining pmm)
    → get_elem? pmm.ranges pmm.cursor ≡ some r
    → try_range pages r ≡ taken p r' full
    → Granted pages p (remaining pmm) (remaining (after_taking pmm r' full))
taken-Granted pages pmm r r' p full s e q =
    let here : IsPool 0 (r ∷ remaining (advance pmm)) =
      subst (IsPool 0) (remaining-advance pmm r e) s in
    let (ep, fits, er, ef, _) = try_range-taken pages r r' p full (omega arith) q in
    rw (ep, remaining-advance pmm r e, remaining-after_taking pmm r r' full e)
      (cut-Granted pages r r' full (remaining (advance pmm)) here fits er ef)

Granted-skip :
    (pages p : ℕ) (r : Range) (rest after : List Range)
    → Granted pages p rest after
    → Granted pages p (r ∷ rest) after
Granted-skip pages p r rest after g = record {
  aligned = g.aligned;
  in_word = g.in_word;
  was_free = λ a l u. ground (arith, g.was_free a l u);
  now_taken = g.now_taken;
  shrinks = λ a c. ground (arith, g.shrinks a c);
  pool = g.pool;
}

IsPool-advance :
    (pmm : Pmm) (r : Range)
    → get_elem? pmm.ranges pmm.cursor ≡ some r
    → IsPool 0 (remaining pmm)
    → IsPool 0 (remaining (advance pmm))
IsPool-advance pmm r e s =
    let here : IsPool 0 (r ∷ remaining (advance pmm)) =
      subst (IsPool 0) (remaining-advance pmm r e) s in
    IsPool-weaken (remaining (advance pmm)) r.end 0 (omega arith) here.2

alloc_loop-Granted :
    (fuel pages : ℕ) (pmm pmm' : Pmm) (p : ℕ)
    → IsPool 0 (remaining pmm)
    → alloc_loop fuel pages pmm ≡ (some p, pmm')
    → Granted pages p (remaining pmm) (remaining pmm')
unfolding alloc_loop
alloc_loop-Granted zero pages pmm pmm' p s e = absurd (ground arith)
alloc_loop-Granted (suc fuel) pages pmm pmm' p s e =
    elim (Option-cases (get_elem? pmm.ranges pmm.cursor)) [
      | inl out ↦ absurd (ground (arith, alloc_loop_end (suc fuel) pages pmm out))
      | inr (r, i) ↦ elim (Round-cases (try_range pages r)) [
        | inl q ↦ rw (remaining-advance pmm r i) (
            Granted-skip pages p r (remaining (advance pmm)) (remaining pmm') (
              alloc_loop-Granted fuel pages (advance pmm) pmm' p (IsPool-advance pmm r i s)
                (sym (alloc_loop_skip fuel pages pmm r i q) ∙ e)))
        | inr (p', r', full, q) ↦
            let step = alloc_loop_taken fuel pages pmm r r' p' full i q in
            let same_p : p' ≡ p = cc in
            let same_pmm : after_taking pmm r' full ≡ pmm' = cc in
            subst₂ (λ t u. Granted pages t (remaining pmm) (remaining u)) same_p same_pmm
              (taken-Granted pages pmm r r' p' full s i q)
      ]
    ]

-- A range that cannot give `pages` pages.
abbrev pub IsSmall : ℕ → Range → Type 0
IsSmall pages r = r.end < r.base + pages * 4096

-- The cursor has passed the last range.
abbrev pub IsSpent : Pmm → Type 0
IsSpent pmm = length pmm.ranges ≤ pmm.cursor

alloc_loop-refused :
    (fuel pages : ℕ) (pmm pmm' : Pmm)
    → 0 < pages
    → length pmm.ranges ≤ fuel + pmm.cursor
    → IsPool 0 (remaining pmm)
    → alloc_loop fuel pages pmm ≡ (none, pmm')
    → IsSpent pmm' × All (IsSmall pages) (remaining pmm)
unfolding alloc_loop
alloc_loop-refused zero pages pmm pmm' z enough s e =
    let same : pmm ≡ pmm' = cc in
    let spent : IsSpent pmm = omega arith in
    (subst IsSpent same spent, rw (drop-all pmm.cursor pmm.ranges spent) tt)
alloc_loop-refused (suc fuel) pages pmm pmm' z enough s e =
    elim (Option-cases (get_elem? pmm.ranges pmm.cursor)) [
      | inl out ↦
          let step = alloc_loop_end (suc fuel) pages pmm out in
          let same : pmm ≡ pmm' = cc in
          let spent : IsSpent pmm = get_elem?-none_le pmm.cursor pmm.ranges out in
          (subst IsSpent same spent, rw (drop-all pmm.cursor pmm.ranges spent) tt)
      | inr (r, i) ↦ elim (Round-cases (try_range pages r)) [
        | inl q ↦
            let here : IsPool 0 (r ∷ remaining (advance pmm)) =
              subst (IsPool 0) (remaining-advance pmm r i) s in
            let rest =
              alloc_loop-refused fuel pages (advance pmm) pmm' z (omega arith)
                (IsPool-advance pmm r i s) (sym (alloc_loop_skip fuel pages pmm r i q) ∙ e) in
            (
              rest.0,
              rw (remaining-advance pmm r i) (try_range-skip pages r z (omega arith) q, rest.1),
            )
        | inr (p', r', full, q) ↦
            absurd (ground (arith, alloc_loop_taken fuel pages pmm r r' p' full i q))
      ]
    ]

try_range-small :
    (pages : ℕ) (r : Range) → r.end + 1 < 2 ^ 64 → IsSmall pages r → try_range pages r ≡ skip
unfolding try_range
try_range-small pages r h g = ground arith

-- The loop ends by its test within `fuel` rounds, having skipped every range.
alloc_loop-small :
    (fuel pages : ℕ) (pmm : Pmm)
    → IsPool 0 (remaining pmm)
    → All (IsSmall pages) (remaining pmm)
    → (alloc_loop fuel pages pmm).0 ≡ none
unfolding alloc_loop
alloc_loop-small zero pages pmm s g = refl
alloc_loop-small (suc fuel) pages pmm s g = elim (Option-cases (get_elem? pmm.ranges pmm.cursor)) [
  | inl out ↦ ap (λ t. t.0) (alloc_loop_end (suc fuel) pages pmm out)
  | inr (r, i) ↦
      let here : IsPool 0 (r ∷ remaining (advance pmm)) =
        subst (IsPool 0) (remaining-advance pmm r i) s in
      let small : All (IsSmall pages) (r ∷ remaining (advance pmm)) =
        subst (All (IsSmall pages)) (remaining-advance pmm r i) g in
      ap (λ t. t.0)
        (alloc_loop_skip fuel pages pmm r i (try_range-small pages r (omega arith) small.0))
      ∙ alloc_loop-small fuel pages (advance pmm) (IsPool-advance pmm r i s) small.1
]

-- Where the ranges from the cursor on are whole pages, in order and disjoint, a block that a
-- request gets is aligned to a page and ends within the address space; all of it was free, and none
-- of it is free afterwards; no other address becomes free; and the ranges left are again whole
-- pages, in order and disjoint.
pub alloc_pages-Granted :
    (pages p : ℕ) (pmm pmm' : Pmm)
    → IsPool 0 (remaining pmm)
    → alloc_pages pages (some pmm) ≡ (some p, some pmm')
    → Granted pages p (remaining pmm) (remaining pmm')
unfolding alloc_pages
alloc_pages-Granted pages p pmm pmm' s e =
    alloc_loop-Granted (length pmm.ranges) pages pmm pmm' p s (ground arith)

-- Where the ranges from the cursor on are whole pages, in order and disjoint: if a request of at
-- least one page is refused, each of these ranges is too small for it and the cursor then stands
-- past the last range; and if each is too small, the request is refused.
pub alloc_pages-refused :
    (pages : ℕ) (pmm pmm' : Pmm)
    → 0 < pages
    → IsPool 0 (remaining pmm)
    → ((alloc_pages pages (some pmm) ≡ (none, some pmm'))
        → IsSpent pmm' × All (IsSmall pages) (remaining pmm))
      × (All (IsSmall pages) (remaining pmm) → (alloc_pages pages (some pmm)).0 ≡ none)
unfolding alloc_pages
alloc_pages-refused pages pmm pmm' z s = (
  λ e. alloc_loop-refused (length pmm.ranges) pages pmm pmm' z (omega arith) s (ground arith),
  λ g. ground (arith, alloc_loop-small (length pmm.ranges) pages pmm s g),
)

-- Past the last range every request is refused and nothing changes.
pub alloc_pages-spent :
    (pages : ℕ) (pmm : Pmm) → IsSpent pmm → alloc_pages pages (some pmm) ≡ (none, some pmm)
unfolding alloc_pages
alloc_pages-spent pages pmm h =
    ground
      (arith, alloc_loop_end (length pmm.ranges) pages pmm (get_elem?-none pmm.cursor pmm.ranges h))

pub alloc_pages_cases :
    (pages : ℕ) (pmm : Pmm)
    → IsPool 0 (remaining pmm)
    → ((pages ≡ 0) × (alloc_pages pages (some pmm) ≡ (none, some pmm)))
      ⊎ ((pmm' : Pmm) × (alloc_pages pages (some pmm) ≡ (none, some pmm')) × IsSpent pmm')
      ⊎ ((p : ℕ) × (pmm' : Pmm) × (alloc_pages pages (some pmm) ≡ (some p, some pmm')))
unfolding alloc_pages
alloc_pages_cases zero pmm s = inl (refl, refl)
alloc_pages_cases (suc pages) pmm s =
    let out = alloc_loop (length pmm.ranges) (suc pages) pmm in
    elim (Option-cases out.0) [
      | inl e ↦
          let refused : alloc_loop (length pmm.ranges) (suc pages) pmm ≡ (none, out.1) =
            ap {B = Option ℕ × Pmm} (λ t. (t, out.1)) e in
          inr (
            inl (
              out.1,
              ground arith,
              (alloc_loop-refused (length pmm.ranges) (suc pages) pmm out.1 (omega arith)
                  (omega arith) s refused).0,
            ))
      | inr (p, e) ↦ inr (inr (p, out.1, ground arith))
    ]
