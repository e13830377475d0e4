-- ===== src/Pmm/Cover.antt =====
-- What a list of ranges covers, and what sorting, merging and subtracting do to that.
use mantra_os.Common.{
  ℕ, ◌%◌, ◌^◌, ◌≤◌, ◌<◌, ◌≡◌, ◌⊎◌, refl, Bool, false, ◌&&◌, ltb, leb, List, [], ◌∷◌, any, arith,
}
use mantra_os.Pmm.{Range}

abbrev pub within : Range → ℕ → Bool
within r a = leb r.base a && ltb a r.end

abbrev pub covers : List Range → ℕ → Bool
covers rs a = any (λ r. within r a) rs

-- Every range ends above its start.
abbrev pub IsRange : Range → Type 0
IsRange r = r.base < r.end

-- Bases rise along the list, from `lo`.
abbrev pub Ascending : ℕ → List Range → Type 0
Ascending lo [] = Unit {0}
Ascending lo (r ∷ rs) = (lo ≤ r.base) × Ascending r.base rs

pub Ascending-weaken :
    (rs : List Range) (lo lo' : ℕ) → lo' ≤ lo → Ascending lo rs → Ascending lo' rs
Ascending-weaken [] lo lo' h s = tt
Ascending-weaken (r ∷ rs) lo lo' h s = (omega arith, s.1)

-- A range of whole pages, none of them the last page of the address space.
abbrev pub IsPaged : Range → Type 0
IsPaged r = (r.base < r.end) × (r.base % 4096 ≡ 0) × (r.end % 4096 ≡ 0) × (r.end < 2 ^ 64)

-- Ranges of whole pages, in order of address from `lo` on, that do not overlap.
abbrev pub IsLayout : ℕ → List Range → Type 0
IsLayout lo [] = Unit {0}
IsLayout lo (r ∷ rs) = (lo ≤ r.base) × IsPaged r × IsLayout r.end rs

pub IsLayout-weaken : (rs : List Range) (lo lo' : ℕ) → lo' ≤ lo → IsLayout lo rs → IsLayout lo' rs
IsLayout-weaken [] lo lo' h s = tt
IsLayout-weaken (r ∷ rs) lo lo' h s = (omega arith, s.1, s.2)

-- A layout covers nothing below its lower bound.
pub covers-below : (rs : List Range) (lo a : ℕ) → IsLayout lo rs → a < lo → covers rs a ≡ false
covers-below [] lo a s h = refl
covers-below (r ∷ rs) lo a s h = ground (arith, covers-below rs r.end a s.2)

-- The address is not in the range from `lo` up to `hi`.
abbrev pub Outside : ℕ → ℕ → ℕ → Type 0
Outside lo hi a = (a < lo) ⊎ (hi ≤ a)
