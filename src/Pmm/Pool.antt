-- ===== src/Pmm/Pool.antt =====
-- What is left to the allocator of kernel/src/pmm.rs, and one round of its loop.
use mantra_os.Common.{
  ℕ, zero, suc, ◌+◌, ◌*◌, ◌%◌, ◌^◌, ◌≤◌, ◌<◌, ◌≡◌, ◌⊎◌, refl, inl, inr, Bool, true, false, leb,
  if◌then◌else◌, List, [], ◌∷◌, none, some, get_elem?, set, drop, drop-get_elem?, drop-set,
  drop-set_before, arith,
}
use mantra_os.Pmm.{Range, Pmm, Round, skip, taken, try_range, alloc_loop}
use mantra_os.Pmm.Cover.{covers, IsLayout}

-- Ranges of whole pages in order that do not overlap; a range may be used up.
abbrev pub IsPool : ℕ → List Range → Type 0
IsPool lo [] = Unit {0}
IsPool lo (r ∷ rs) =
    (lo ≤ r.base)
    × ((r.base ≤ r.end) × (r.base % 4096 ≡ 0) × (r.end % 4096 ≡ 0) × (r.end < 2 ^ 64))
    × IsPool r.end rs

pub IsPool-weaken : (rs : List Range) (lo lo' : ℕ) → lo' ≤ lo → IsPool lo rs → IsPool lo' rs
IsPool-weaken [] lo lo' h s = tt
IsPool-weaken (r ∷ rs) lo lo' h s = (omega arith, s.1, s.2)

pub IsLayout-IsPool : (rs : List Range) (lo : ℕ) → IsLayout lo rs → IsPool lo rs
IsLayout-IsPool [] lo s = tt
IsLayout-IsPool (r ∷ rs) lo s = (s.0, omega arith, IsLayout-IsPool rs r.end s.2)

pool-below : (rs : List Range) (lo a : ℕ) → IsPool lo rs → a < lo → covers rs a ≡ false
pool-below [] lo a s h = refl
pool-below (r ∷ rs) lo a s h = ground (arith, pool-below rs r.end a s.2)

-- The ranges that the allocator still looks at.
abbrev pub remaining : Pmm → List Range
remaining pmm = drop pmm.cursor pmm.ranges

-- A block of `pages` pages at `p`, taken from the ranges `before`, which leaves `after`.
pub record Granted (pages p : ℕ) (before after : List Range) : Type 0 where
  pub aligned : p % 4096 ≡ 0
  pub in_word : p + pages * 4096 < 2 ^ 64
  pub was_free : (a : ℕ) → p ≤ a → a < p + pages * 4096 → covers before a ≡ true
  pub now_taken : (a : ℕ) → p ≤ a → a < p + pages * 4096 → covers after a ≡ false
  pub shrinks : (a : ℕ) → covers after a ≡ true → covers before a ≡ true
  pub pool : IsPool 0 after

pub try_range-taken :
    (pages : ℕ) (r r' : Range) (p : ℕ) (full : Bool)
    → r.end + 1 < 2 ^ 64
    → try_range pages r ≡ taken p r' full
    → (p ≡ r.base)
      × (r.base + pages * 4096 ≤ r.end)
      × (r' ≡ record r { base = r.base + pages * 4096 })
      × (full ≡ leb r.end (r.base + pages * 4096))
      × (r.base < r.end)
unfolding try_range
try_range-taken pages r r' p full h e = ground arith

pub try_range-skip :
    (pages : ℕ) (r : Range)
    → 0 < pages
    → r.end < 2 ^ 64
    → try_range pages r ≡ skip
    → r.end < r.base + pages * 4096
unfolding try_range
try_range-skip pages r z h e = ground arith

-- One step of the loop at a range, by what `try_range` says of it.
pub alloc_loop_end :
    (fuel pages : ℕ) (pmm : Pmm)
    → get_elem? pmm.ranges pmm.cursor ≡ none
    → alloc_loop fuel pages pmm ≡ (none, pmm)
unfolding alloc_loop
alloc_loop_end zero pages pmm e = refl
alloc_loop_end (suc fuel) pages pmm e = rw (e, alloc_loop)

abbrev pub advance : Pmm → Pmm
advance pmm = record pmm { cursor = pmm.cursor + 1 }

pub alloc_loop_skip :
    (fuel pages : ℕ) (pmm : Pmm) (r : Range)
    → get_elem? pmm.ranges pmm.cursor ≡ some r
    → try_range pages r ≡ skip
    → alloc_loop (suc fuel) pages pmm ≡ alloc_loop fuel pages (advance pmm)
unfolding alloc_loop
alloc_loop_skip fuel pages pmm r e q = ground arith

abbrev pub after_taking : Pmm → Range → Bool → Pmm
after_taking pmm r' full = record pmm {
  ranges = set pmm.ranges pmm.cursor r';
  cursor = if full then pmm.cursor + 1 else pmm.cursor;
}

pub alloc_loop_taken :
    (fuel pages : ℕ) (pmm : Pmm) (r r' : Range) (p : ℕ) (full : Bool)
    → get_elem? pmm.ranges pmm.cursor ≡ some r
    → try_range pages r ≡ taken p r' full
    → alloc_loop (suc fuel) pages pmm ≡ (some p, after_taking pmm r' full)
unfolding alloc_loop
alloc_loop_taken fuel pages pmm r r' p full e q = ground arith

pub Round-cases :
    (o : Round) → (o ≡ skip) ⊎ ((p : ℕ) × (r : Range) × (full : Bool) × (o ≡ taken p r full))
Round-cases skip = inl refl
Round-cases (taken p r full) = inr (p, r, full, refl)

pub remaining-advance :
    (pmm : Pmm) (r : Range)
    → get_elem? pmm.ranges pmm.cursor ≡ some r
    → remaining pmm ≡ r ∷ remaining (advance pmm)
remaining-advance pmm r e =
    let next : pmm.cursor + 1 ≡ suc pmm.cursor = omega arith in
    rw next (drop-get_elem? pmm.cursor pmm.ranges r e)

-- What is left of a range behind its first pages, before the ranges that follow.
abbrev cut : Range → Bool → List Range → List Range
cut r' full rest = if full then rest else r' ∷ rest

pub remaining-after_taking :
    (pmm : Pmm) (r r' : Range) (full : Bool)
    → get_elem? pmm.ranges pmm.cursor ≡ some r
    → remaining (after_taking pmm r' full) ≡ cut r' full (remaining (advance pmm))
remaining-after_taking pmm r r' true e =
    let next : pmm.cursor + 1 ≡ suc pmm.cursor = omega arith in
    rw next (drop-set_before pmm.cursor pmm.ranges r')
remaining-after_taking pmm r r' false e =
    let next : pmm.cursor + 1 ≡ suc pmm.cursor = omega arith in
    rw next (drop-set pmm.cursor pmm.ranges r r' e)

pub cut-Granted :
    (pages : ℕ) (r r' : Range) (full : Bool) (rest : List Range)
    → IsPool 0 (r ∷ rest)
    → r.base + pages * 4096 ≤ r.end
    → r' ≡ record r { base = r.base + pages * 4096 }
    → full ≡ leb r.end (r.base + pages * 4096)
    → Granted pages r.base (r ∷ rest) (cut r' full rest)
cut-Granted pages r r' full rest s h er ef = record {
  aligned = s.1.1;
  in_word = omega arith;
  was_free = λ a l u. ground arith;
  now_taken = λ a l u. ground (arith, pool-below rest r.end a s.2);
  shrinks = λ a c. ground arith;
  pool = ground (arith, IsPool-weaken rest r.end 0);
}
