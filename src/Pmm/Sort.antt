-- ===== src/Pmm/Sort.antt =====
-- `sort_by_base` of kernel/src/pmm.rs sorts, and keeps what the ranges cover.
use mantra_os.Common.{ℕ, ◌≤◌, ◌≡◌, refl, ◌||◌, List, [], ◌∷◌, length, suc, ◌+◌, All, arith}
use mantra_os.Pmm.{Range, shift_in, unwind, sort_from, sort_by_base}
use mantra_os.Pmm.Cover.{within, covers, Ascending, Ascending-weaken}

-- Bases fall along a list read from the right.
abbrev Descending : ℕ → List Range → Type 0
Descending hi [] = Unit {0}
Descending hi (r ∷ rs) = (r.base ≤ hi) × Descending r.base rs

covers-shift_in :
    (k : Range) (p : List Range) (a : ℕ) → covers (shift_in k p) a ≡ (within k a || covers p a)
unfolding shift_in
covers-shift_in k [] a = refl
covers-shift_in k (r ∷ p) a = ground (arith, covers-shift_in k p a)

covers-unwind :
    (p rest : List Range) (a : ℕ) → covers (unwind p rest) a ≡ (covers p a || covers rest a)
unfolding unwind
covers-unwind [] rest a = refl
covers-unwind (r ∷ p) rest a = ground (arith, covers-unwind p (r ∷ rest) a)

covers-sort_from :
    (p rest : List Range) (a : ℕ) → covers (sort_from p rest) a ≡ (covers p a || covers rest a)
unfolding sort_from
covers-sort_from p [] a = covers-unwind p [] a
covers-sort_from p (k ∷ rest) a =
    ground (arith, covers-sort_from (shift_in k p) rest a, covers-shift_in k p a)

-- The sort keeps the addresses that the ranges hold.
pub covers-sort_by_base : (rs : List Range) (a : ℕ) → covers (sort_by_base rs) a ≡ covers rs a
unfolding sort_by_base
covers-sort_by_base [] a = refl
covers-sort_by_base (r ∷ rs) a = ground (arith, covers-sort_from (r ∷ []) rs a)

Descending-shift_in :
    (k : Range) (p : List Range) (hi : ℕ)
    → Descending hi p
    → k.base ≤ hi
    → Descending hi (shift_in k p)
unfolding shift_in
Descending-shift_in k [] hi d h = (h, tt)
Descending-shift_in k (r ∷ p) hi d h = ground (arith, Descending-shift_in k p r.base d.1)

Ascending-unwind :
    (p rest : List Range) (hi : ℕ)
    → Descending hi p
    → Ascending hi rest
    → Ascending 0 (unwind p rest)
unfolding unwind
Ascending-unwind [] rest hi d s = Ascending-weaken rest hi 0 (omega arith) s
Ascending-unwind (r ∷ p) rest hi d s =
    Ascending-unwind p (r ∷ rest) r.base d.1 (omega arith, Ascending-weaken rest hi r.base d.0 s)

Ascending-sort_from :
    (p rest : List Range) (hi : ℕ)
    → Descending hi p
    → All (λ r. r.base ≤ hi) rest
    → Ascending 0 (sort_from p rest)
unfolding sort_from
Ascending-sort_from p [] hi d h = Ascending-unwind p [] hi d tt
Ascending-sort_from p (k ∷ rest) hi d h =
    Ascending-sort_from (shift_in k p) rest hi (Descending-shift_in k p hi d h.0) h.1

-- Whatever the ranges are, with bases up to some bound, the bases rise along the sorted list.
pub Ascending-sort_by_base :
    (rs : List Range) (hi : ℕ) → All (λ r. r.base ≤ hi) rs → Ascending 0 (sort_by_base rs)
unfolding sort_by_base
Ascending-sort_by_base [] hi h = tt
Ascending-sort_by_base (r ∷ rs) hi h = Ascending-sort_from (r ∷ []) rs hi (h.0, tt) h.1

-- What holds of every range before the sort holds after it.
module _ (P : Range → Type 0) where
  All-shift_in : (k : Range) (p : List Range) → P k → All P p → All P (shift_in k p)
  unfolding shift_in
  All-shift_in k [] h g = (h, tt)
  All-shift_in k (r ∷ p) h g = ground (arith, All-shift_in k p h g.1)

  All-unwind : (p rest : List Range) → All P p → All P rest → All P (unwind p rest)
  unfolding unwind
  All-unwind [] rest h g = g
  All-unwind (r ∷ p) rest h g = All-unwind p (r ∷ rest) h.1 (h.0, g)

  All-sort_from : (p rest : List Range) → All P p → All P rest → All P (sort_from p rest)
  unfolding sort_from
  All-sort_from p [] h g = All-unwind p [] h tt
  All-sort_from p (k ∷ rest) h g = All-sort_from (shift_in k p) rest (All-shift_in k p g.0 h) g.1

  pub All-sort_by_base : (rs : List Range) → All P rs → All P (sort_by_base rs)
  unfolding sort_by_base
  All-sort_by_base [] h = tt
  All-sort_by_base (r ∷ rs) h = All-sort_from (r ∷ []) rs (h.0, tt) h.1

length-shift_in : (k : Range) (p : List Range) → length (shift_in k p) ≡ suc (length p)
unfolding shift_in
length-shift_in k [] = refl
length-shift_in k (r ∷ p) = ground (arith, length-shift_in k p)

length-unwind : (p rest : List Range) → length (unwind p rest) ≡ length p + length rest
unfolding unwind
length-unwind [] rest = omega arith
length-unwind (r ∷ p) rest = omega (arith, length-unwind p (r ∷ rest))

length-sort_from : (p rest : List Range) → length (sort_from p rest) ≡ length p + length rest
unfolding sort_from
length-sort_from p [] = length-unwind p []
length-sort_from p (k ∷ rest) =
    omega (arith, length-sort_from (shift_in k p) rest, length-shift_in k p)

pub length-sort_by_base : (rs : List Range) → length (sort_by_base rs) ≡ length rs
unfolding sort_by_base
length-sort_by_base [] = refl
length-sort_by_base (r ∷ rs) = omega (arith, length-sort_from (r ∷ []) rs)

-- Whatever the ranges are, with bases up to some bound: the bases rise along the sorted list, and it
-- holds the addresses that the ranges hold.
pub sort_by_base_lem :
    (rs : List Range) (hi : ℕ)
    → All (λ r. r.base ≤ hi) rs
    → Ascending 0 (sort_by_base rs) × ((a : ℕ) → covers (sort_by_base rs) a ≡ covers rs a)
sort_by_base_lem rs hi h = (Ascending-sort_by_base rs hi h, λ a. covers-sort_by_base rs a)
