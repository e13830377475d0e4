-- ===== src/Pmm/Merge.antt =====
-- `merge_adjacent` of kernel/src/pmm.rs makes a layout of sorted ranges, and keeps what they cover.
use mantra_os.Common.{
  ℕ, ◌≤◌, max, ◌≡◌, refl, inl, inr, ◌||◌, true, false, leb, leb→le, Bool-cases, List, [], ◌∷◌,
  length, suc, All, arith,
}
use mantra_os.Pmm.{Range, merge_into, merge_adjacent}
use mantra_os.Pmm.Cover.{within, covers, Ascending, Ascending-weaken, IsPaged, IsLayout}

abbrev joined : Range → Range → Range
joined cur r = record cur { end = max cur.end r.end }

joined-IsPaged : (cur r : Range) → IsPaged cur → IsPaged r → IsPaged (joined cur r)
joined-IsPaged cur r h g = ground arith

within-joined :
    (cur r : Range) (a : ℕ)
    → cur.base ≤ r.base
    → r.base ≤ cur.end
    → within (joined cur r) a ≡ (within cur a || within r a)
within-joined cur r a h g = ground arith

merge_into_near :
    (r : Range) (rs : List Range) (cur : Range)
    → leb r.base cur.end ≡ true
    → merge_into cur (r ∷ rs) ≡ merge_into (joined cur r) rs
unfolding merge_into
merge_into_near r rs cur e = rw (e, merge_into)

merge_into_apart :
    (r : Range) (rs : List Range) (cur : Range)
    → leb r.base cur.end ≡ false
    → merge_into cur (r ∷ rs) ≡ cur ∷ merge_into r rs
unfolding merge_into
merge_into_apart r rs cur e = rw (e, merge_into)

covers-merge_into :
    (rs : List Range) (cur : Range) (a : ℕ)
    → Ascending cur.base rs
    → IsPaged cur
    → All IsPaged rs
    → covers (merge_into cur rs) a ≡ (within cur a || covers rs a)
unfolding merge_into
covers-merge_into [] cur a s h g = refl
covers-merge_into (r ∷ rs) cur a s h g = elim (Bool-cases (leb r.base cur.end)) [
  | inl e ↦ rw (merge_into_near r rs cur e) (
      ground (
        arith,
        covers-merge_into rs (joined cur r) a (Ascending-weaken rs r.base cur.base s.0 s.1)
            (joined-IsPaged cur r h g.0) g.1,
        within-joined cur r a s.0 (leb→le _ _ e),
      ))
  | inr e ↦ rw (merge_into_apart r rs cur e) (ground (arith, covers-merge_into rs r a s.1 g.0 g.1))
]

IsLayout-merge_into :
    (rs : List Range) (cur : Range) (lo : ℕ)
    → lo ≤ cur.base
    → Ascending cur.base rs
    → IsPaged cur
    → All IsPaged rs
    → IsLayout lo (merge_into cur rs)
unfolding merge_into
IsLayout-merge_into [] cur lo l s h g = (l, h, tt)
IsLayout-merge_into (r ∷ rs) cur lo l s h g = elim (Bool-cases (leb r.base cur.end)) [
  | inl e ↦ rw (merge_into_near r rs cur e) (
      IsLayout-merge_into rs (joined cur r) lo l (Ascending-weaken rs r.base cur.base s.0 s.1)
        (joined-IsPaged cur r h g.0) g.1)
  | inr e ↦
      rw (merge_into_apart r rs cur e)
        (l, h, IsLayout-merge_into rs r cur.end (ground arith) s.1 g.0 g.1)
]

-- Merging ranges of whole pages, sorted by base, keeps the addresses that they hold.
pub covers-merge_adjacent :
    (rs : List Range) (a : ℕ)
    → Ascending 0 rs
    → All IsPaged rs
    → covers (merge_adjacent rs) a ≡ covers rs a
unfolding merge_adjacent
covers-merge_adjacent [] a s g = refl
covers-merge_adjacent (r ∷ rs) a s g = covers-merge_into rs r a s.1 g.0 g.1

-- Merging ranges of whole pages, sorted by base, gives ranges of whole pages that are in order and
-- disjoint.
pub IsLayout-merge_adjacent :
    (rs : List Range) → Ascending 0 rs → All IsPaged rs → IsLayout 0 (merge_adjacent rs)
unfolding merge_adjacent
IsLayout-merge_adjacent [] s g = tt
IsLayout-merge_adjacent (r ∷ rs) s g = IsLayout-merge_into rs r 0 s.0 s.1 g.0 g.1

length-merge_into : (rs : List Range) (cur : Range) → length (merge_into cur rs) ≤ suc (length rs)
length-merge_into [] cur = unfold merge_into in omega arith
length-merge_into (r ∷ rs) cur = elim (Bool-cases (leb r.base cur.end)) [
  | inl e ↦ rw (merge_into_near r rs cur e) (omega (arith, length-merge_into rs (joined cur r)))
  | inr e ↦ rw (merge_into_apart r rs cur e) (omega (arith, length-merge_into rs r))
]

pub length-merge_adjacent : (rs : List Range) → length (merge_adjacent rs) ≤ length rs
unfolding merge_adjacent
length-merge_adjacent [] = omega arith
length-merge_adjacent (r ∷ rs) = length-merge_into rs r

-- Merging ranges of whole pages, sorted by base, gives ranges of whole pages that are in order and
-- disjoint, and that hold the same addresses.
pub merge_adjacent_lem :
    (rs : List Range)
    → Ascending 0 rs
    → All IsPaged rs
    → IsLayout 0 (merge_adjacent rs) × ((a : ℕ) → covers (merge_adjacent rs) a ≡ covers rs a)
merge_adjacent_lem rs s g = (IsLayout-merge_adjacent rs s g, λ a. covers-merge_adjacent rs a s g)
