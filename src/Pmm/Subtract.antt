-- ===== src/Pmm/Subtract.antt =====
-- `subtract_reserved` of kernel/src/pmm.rs takes exactly the reserved addresses out of a layout.
use mantra_os.Common.{
  ℕ, suc, ◌+◌, ◌%◌, ◌≤◌, ◌<◌, ◌≡◌, refl, subst, ◌⊎◌, inl, inr, Bool, false, ◌&&◌, ◌||◌, not, ltb,
  leb, List, [], ◌∷◌, ◌++◌, Option, none, some, length, length-append, Bool-cases, arith,
}
use mathlib.Core.Option.{some-injective}
use mantra_os.Pmm.{Range, pieces, prepend, subtract_from, subtract_reserved, max_ranges}
use mantra_os.Pmm.Cover.{within, covers, IsPaged, IsLayout, IsLayout-weaken}

-- An address of the reserved range.
abbrev pub inside : ℕ → ℕ → ℕ → Bool
inside lo hi a = leb lo a && ltb a hi

covers-append : (xs ys : List Range) (a : ℕ) → covers (xs ++ ys) a ≡ (covers xs a || covers ys a)
covers-append [] ys a = refl
covers-append (x ∷ xs) ys a = ground (arith, covers-append xs ys a)

covers-pieces :
    (r : Range) (lo hi a : ℕ)
    → lo < hi
    → r.base < r.end
    → covers (pieces r lo hi) a ≡ (within r a && not (inside lo hi a))
unfolding pieces
covers-pieces r lo hi a h g = ground arith

pieces_cases :
    (r : Range) (lo hi : ℕ)
    → lo < hi
    → r.base < r.end
    → (pieces r lo hi ≡ r ∷ [])
      ⊎ (pieces r lo hi ≡ [])
      ⊎ ((pieces r lo hi ≡ record r { base = hi } ∷ []) × (r.base < hi) × (hi < r.end))
      ⊎ ((pieces r lo hi ≡ record r { end = lo } ∷ []) × (r.base < lo) × (lo < r.end))
      ⊎ ((pieces r lo hi ≡ record r { end = lo } ∷ record r { base = hi } ∷ [])
          × (r.base < lo)
          × (hi < r.end))
unfolding pieces
pieces_cases r lo hi h g = ground arith

-- The pieces are laid out where the range was.
IsLayout-pieces :
    (r : Range) (lo hi low : ℕ) (rs : List Range)
    → lo < hi
    → lo % 4096 ≡ 0
    → hi % 4096 ≡ 0
    → low ≤ r.base
    → IsPaged r
    → IsLayout r.end rs
    → IsLayout low (pieces r lo hi ++ rs)
IsLayout-pieces r lo hi low rs h p q l g s = elim (pieces_cases r lo hi h g.0) [
  | inl e ↦ rw e (l, g, s)
  | inr (inl e) ↦ rw e (IsLayout-weaken rs r.end low (omega arith) s)
  | inr (inr (inl c)) ↦ rw c.0 (omega arith, (c.2, q, g.2, g.3), s)
  | inr (inr (inr (inl c))) ↦
      rw c.0 (l, (c.1, g.1, p, omega arith), IsLayout-weaken rs r.end lo (omega arith) s)
  | inr (inr (inr (inr c))) ↦
      rw c.0 (l, (c.1, g.1, p, omega arith), (omega arith, (c.2, q, g.2, g.3), s))
]

prepend-some :
    (ps : List Range) (o : Option (List Range)) {out : List Range}
    → prepend ps o ≡ some out
    → (rest : List Range) × (o ≡ some rest) × (out ≡ ps ++ rest)
prepend-some ps none e = cc
prepend-some ps (some rest) e = (rest, refl, cc)

subtract_from-cons :
    (i : ℕ) (r : Range) (rs : List Range) (lo hi : ℕ) {out : List Range}
    → subtract_from i (r ∷ rs) lo hi ≡ some out
    → (rest : List Range) × (subtract_from (i + length (pieces r lo hi)) rs lo hi ≡ some rest)
      × (out ≡ pieces r lo hi ++ rest)
      × ((leb 2 (length (pieces r lo hi)) && leb max_ranges (i + suc (length rs))) ≡ false)
unfolding subtract_from
subtract_from-cons i r rs lo hi e =
    elim (Bool-cases (leb 2 (length (pieces r lo hi)) && leb max_ranges (i + suc (length rs)))) [
      | inl full ↦ absurd (ground arith)
      | inr room ↦
          let (rest, e', eo) =
            prepend-some (pieces r lo hi) (subtract_from (i + length (pieces r lo hi)) rs lo hi)
              (ground arith) in
          (rest, e', eo, room)
    ]

-- Whatever a successful subtraction covers was covered, and is not reserved.
covers-subtract_from :
    (i : ℕ) (rs : List Range) (lo hi low a : ℕ) {out : List Range}
    → lo < hi
    → IsLayout low rs
    → subtract_from i rs lo hi ≡ some out
    → covers out a ≡ (covers rs a && not (inside lo hi a))
unfolding subtract_from
covers-subtract_from i [] lo hi low a h s e = ground arith
covers-subtract_from i (r ∷ rs) lo hi low a h s e =
    let (rest, e', eo, room) = subtract_from-cons i r rs lo hi e in
    rw (eo, covers-append (pieces r lo hi) rest a)
      (ground (
        arith,
        covers-pieces r lo hi a h s.1.0,
        covers-subtract_from (i + length (pieces r lo hi)) rs lo hi r.end a h s.2 e',
      ))

IsLayout-subtract_from :
    (i : ℕ) (rs : List Range) (lo hi low : ℕ) {out : List Range}
    → lo < hi
    → lo % 4096 ≡ 0
    → hi % 4096 ≡ 0
    → IsLayout low rs
    → subtract_from i rs lo hi ≡ some out
    → IsLayout low out
unfolding subtract_from
IsLayout-subtract_from i [] lo hi low {out} h p q s e =
    subst (IsLayout low) (some-injective [] out e) tt
IsLayout-subtract_from i (r ∷ rs) lo hi low h p q s e =
    let (rest, e', eo, room) = subtract_from-cons i r rs lo hi e in
    rw eo (
      IsLayout-pieces r lo hi low rest h p q s.0 s.1
        (IsLayout-subtract_from (i + length (pieces r lo hi)) rs lo hi r.end h p q s.2 e'))

length-pieces : (r : Range) (lo hi : ℕ) → length (pieces r lo hi) ≤ 2
unfolding pieces
length-pieces r lo hi = ground arith

-- A split is refused where the array is full, so the entries always fit.
length-subtract_from :
    (i : ℕ) (rs : List Range) (lo hi : ℕ) {out : List Range}
    → i + length rs ≤ max_ranges
    → subtract_from i rs lo hi ≡ some out
    → i + length out ≤ max_ranges
unfolding subtract_from
length-subtract_from i [] lo hi h e = ground arith
length-subtract_from i (r ∷ rs) lo hi h e =
    let (rest, e', eo, room) = subtract_from-cons i r rs lo hi e in
    let fits : i + length (pieces r lo hi) + length rs ≤ max_ranges =
      ground (arith, length-pieces r lo hi) in
    rw (eo, length-append (pieces r lo hi) rest)
      (omega (arith, length-subtract_from (i + length (pieces r lo hi)) rs lo hi fits e'))

-- What a successful `subtract_reserved` leaves of a layout.
pub record Subtracted (ranges : List Range) (lo hi : ℕ) (out : List Range) : Type 0 where
  pub layout : IsLayout 0 out
  pub fits : length out ≤ max_ranges
  pub exact : (a : ℕ) → covers out a ≡ (covers ranges a && not (inside lo hi a))

-- A successful `subtract_reserved` of a range of whole pages that is not empty, from at most 128
-- ranges of whole pages, in order and disjoint, leaves at most 128 such ranges, which hold exactly
-- the addresses that were held and do not lie in the subtracted range.
pub subtract_lem :
    (ranges : List Range) (lo hi : ℕ) {out : List Range}
    → lo < hi
    → lo % 4096 ≡ 0
    → hi % 4096 ≡ 0
    → IsLayout 0 ranges
    → length ranges ≤ max_ranges
    → subtract_reserved ranges lo hi ≡ some out
    → Subtracted ranges lo hi out
unfolding subtract_reserved
subtract_lem ranges lo hi {out} h p q s l e = record {
  layout = IsLayout-subtract_from 0 ranges lo hi 0 h p q s e;
  fits = omega (arith, length-subtract_from 0 ranges lo hi {out = out} (omega arith) e);
  exact = λ a. covers-subtract_from 0 ranges lo hi 0 a h s e;
}
