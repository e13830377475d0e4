-- ===== src/Pmm.antt =====
-- kernel/src/pmm.rs, the physical memory manager: `init` turns the boot memory map into a list of
-- free page ranges, and `alloc_pages` hands blocks out of it. The array `ranges` with its `len` is
-- the list of its first `len` entries.
pub mod Align
pub mod Cover
pub mod Sort
pub mod Merge
pub mod Subtract
pub mod Init
pub mod Loops
pub mod Build
pub mod Pool
pub mod Alloc
pub mod Serve
pub mod Sample
mod Tests
use mantra_os.Common.{
  ℕ, zero, suc, ◌+◌, ◌-◌, ◌*◌, ◌^◌, ◌≤◌, max, Bool, true, false, ◌&&◌, not, ltb, leb, ◌==◌,
  if◌then◌else◌, List, [], ◌∷◌, ◌++◌, Option, none, some, length, get_elem?, set, any,
}
use mantra_os.Common.Bits.{bit_and}
use mantra_os.Common.Word.{u64_mod, saturating_add, saturating_mul}
use mantra_os.Common.Run.{Run, done, panic, ◌>>=◌}
use mantra_os.Bootinfo.{MemoryRegion, RegionKind, kind_code}
use Align.{align_up, align_down}

abbrev pub page_size : ℕ
page_size = 4096

abbrev pub max_ranges : ℕ
max_ranges = 128

-- `Range`: the addresses from `base` up to, and without, `end`.
pub record Range : Type 0 where
  pub base : ℕ
  pub end : ℕ

pub record PmmStats : Type 0 where
  pub usable_bytes : ℕ
  pub free_bytes : ℕ
  pub range_count : ℕ

-- `Pmm`; the field `len` is the length of `ranges`.
pub record Pmm : Type 0 where
  pub ranges : List Range
  pub cursor : ℕ

abbrev pub overlaps : ℕ → ℕ → ℕ → ℕ → Bool
overlaps a0 a1 b0 b1 = ltb a0 b1 && ltb b0 a1

-- The inner loop of `sort_by_base`: `prefix` is `ranges[..i]` from the right.
pub shift_in : Range → List Range → List Range
shift_in key [] = key ∷ []
shift_in key (r ∷ prefix) =
    if ltb key.base r.base then r ∷ shift_in key prefix else key ∷ r ∷ prefix

-- The prefix back in the array's order.
pub unwind : List Range → List Range → List Range
unwind [] rest = rest
unwind (r ∷ prefix) rest = unwind prefix (r ∷ rest)

-- The outer loop, at `i = length prefix`.
pub sort_from : List Range → List Range → List Range
unfolding shift_in unwind
sort_from prefix [] = unwind prefix []
sort_from prefix (key ∷ rest) = sort_from (shift_in key prefix) rest

pub sort_by_base : List Range → List Range
unfolding sort_from
sort_by_base [] = []
sort_by_base (r ∷ rs) = sort_from (r ∷ []) rs

-- The loops of `merge_adjacent`, with the range `cur` in hand.
pub merge_into : Range → List Range → List Range
merge_into cur [] = cur ∷ []
merge_into cur (r ∷ rs) = elim (leb r.base cur.end) [
  | true ↦ merge_into (record cur { end = max cur.end r.end }) rs
  | false ↦ cur ∷ merge_into r rs
]

pub merge_adjacent : List Range → List Range
unfolding merge_into
merge_adjacent [] = []
merge_adjacent (r ∷ rs) = merge_into r rs

-- What the body of `subtract_reserved` puts in the place of `r`, its five cases in order.
pub pieces : Range → ℕ → ℕ → List Range
pieces r lo hi =
    if not (overlaps r.base r.end lo hi)
    then r ∷ []
    else if leb lo r.base && leb r.end hi
    then []
    else if leb lo r.base && ltb hi r.end
    then record r { base = hi } ∷ []
    else if ltb r.base lo && leb r.end hi
    then record r { end = lo } ∷ []
    else record r { end = lo } ∷ record r { base = hi } ∷ []

abbrev prepend : List Range → Option (List Range) → Option (List Range)
prepend ps none = none
prepend ps (some rs) = some (ps ++ rs)

-- The loop of `subtract_reserved` at `i`, over the entries from `i` on; `len` is `i` and their
-- number. It is `none` where the source returns `false`: a split that finds the array full.
pub subtract_from : ℕ → List Range → ℕ → ℕ → Option (List Range)
subtract_from i [] lo hi = some []
subtract_from i (r ∷ rs) lo hi =
    let ps = pieces r lo hi in
    let rest = subtract_from (i + length ps) rs lo hi in
    if leb 2 (length ps) && leb max_ranges (i + suc (length rs)) then none else prepend ps rest

pub subtract_reserved : List Range → ℕ → ℕ → Option (List Range)
unfolding subtract_from pieces
subtract_reserved ranges lo hi = subtract_from 0 ranges lo hi

abbrev pub is_usable : MemoryRegion → Bool
is_usable r = r.kind == kind_code RegionKind.usable

-- The page range that `init` collects for a region, if any.
pub usable_range : MemoryRegion → Run (Option Range)
usable_range r = if not (is_usable r) then done none else do
  base ← align_up r.base page_size
  let end = align_down (saturating_add r.base r.len) page_size
  done (if leb end base then none else some (record { base = base; end = end }))

-- The page range that `init` takes out for a region, if any.
pub reserved_range : MemoryRegion → Run (Option Range)
reserved_range r = if is_usable r then done none else if r.len == 0 then done none else do
  let res_base = align_down r.base page_size
  res_end ← align_up (saturating_add r.base r.len) page_size
  done (if leb res_end res_base then none else some (record { base = res_base; end = res_end }))

-- The first loop of `init`: the ranges so far and `usable_bytes`. `none` is `Err(())`.
pub collect : List MemoryRegion → List Range → ℕ → Run (Option (List Range × ℕ))
collect [] ranges usable_bytes = done (some (ranges, usable_bytes))
collect (r ∷ rs) ranges usable_bytes = usable_range r >>= λ o. elim o [
  | none ↦ collect rs ranges usable_bytes
  | some x ↦
      let rest = collect rs (ranges ++ x ∷ []) (saturating_add usable_bytes (x.end - x.base)) in
      if leb max_ranges (length ranges) then done none else rest
]

-- The second loop of `init`.
pub reserve_all : List MemoryRegion → List Range → Run (Option (List Range))
reserve_all [] ranges = done (some ranges)
reserve_all (r ∷ rs) ranges = reserved_range r >>= λ o. elim o [
  | none ↦ reserve_all rs ranges
  | some x ↦ elim (subtract_reserved ranges x.base x.end) [
    | none ↦ done none
    | some ranges' ↦ reserve_all rs ranges'
  ]
]

pub drop_empty : List Range → List Range
drop_empty [] = []
drop_empty (r ∷ rs) = if ltb r.base r.end then r ∷ drop_empty rs else drop_empty rs

-- `free_bytes`, added up from `acc`.
pub sum_free : ℕ → List Range → ℕ
sum_free acc [] = acc
sum_free acc (r ∷ rs) = sum_free (saturating_add acc (r.end - r.base)) rs

-- What `init` leaves in the static `PMM`, and what it returns.
abbrev pub installed : List Range → ℕ → Option (Pmm × PmmStats)
installed [] usable_bytes = none
installed (r ∷ rs) usable_bytes = some (
  record { ranges = r ∷ rs; cursor = 0 },
  record {
    usable_bytes = usable_bytes;
    free_bytes = sum_free 0 (r ∷ rs);
    range_count = length (r ∷ rs);
  },
)

abbrev pub low_memory : ℕ
low_memory = 0x10_0000

-- `init` from the collected ranges on.
pub finish : List MemoryRegion → List Range → ℕ → Run (Option (Pmm × PmmStats))
finish regions [] usable_bytes = done none
finish regions (r ∷ rs) usable_bytes =
    reserve_all regions (merge_adjacent (sort_by_base (r ∷ rs))) >>= λ o. elim o [
      | none ↦ done none
      | some ranges ↦ elim (subtract_reserved ranges 0 low_memory) [
        | none ↦ done none
        | some ranges' ↦ done (installed (drop_empty ranges') usable_bytes)
      ]
    ]

pub init : List MemoryRegion → Run (Option (Pmm × PmmStats))
init regions = collect regions [] 0 >>= λ o. elim o [
  | none ↦ done none
  | some (ranges, usable_bytes) ↦ finish regions ranges usable_bytes
]

-- One round of the loop of `alloc_pages` on the range under the cursor: skip it, or take from it.
pub data Round : Type 0 where
  skip : Round
  taken : ℕ → Range → Bool → Round

pub try_range : ℕ → Range → Round
try_range pages r =
    let need = saturating_mul pages page_size in
    let base' = saturating_add r.base need in
    if leb r.end r.base
    then skip
    else if ltb (r.end - r.base) need
    then skip
    else taken r.base (record r { base = base' }) (leb r.end base')

-- The loop, with fuel. A read past the end is the loop's exit, `cursor >= len`.
pub alloc_loop : ℕ → ℕ → Pmm → Option ℕ × Pmm
unfolding try_range
alloc_loop zero pages pmm = (none, pmm)
alloc_loop (suc fuel) pages pmm = elim (get_elem? pmm.ranges pmm.cursor) [
  | none ↦ (none, pmm)
  | some r ↦ elim (try_range pages r) [
    | skip ↦ alloc_loop fuel pages (record pmm { cursor = pmm.cursor + 1 })
    | taken p r' full ↦ (
      some p,
      record pmm {
        ranges = set pmm.ranges pmm.cursor r';
        cursor = if full then pmm.cursor + 1 else pmm.cursor;
      },
    )
  ]
]

-- `PMM` is `None` until `init` has succeeded.
unfoldable pub alloc_pages : ℕ → Option Pmm → Option ℕ × Option Pmm
unfolding alloc_loop
alloc_pages pages none = (none, none)
alloc_pages pages (some pmm) =
    if pages == 0
    then (none, some pmm)
    else let (p, pmm') = alloc_loop (length pmm.ranges) pages pmm in (p, some pmm')

unfoldable pub alloc_frame : Option Pmm → Option ℕ × Option Pmm
unfolding alloc_pages
alloc_frame = alloc_pages 1
