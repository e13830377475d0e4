-- ===== src/Pmm/Init.antt =====
-- `init` of kernel/src/pmm.rs against the boot memory map, region by region.
use mantra_os.Common.{
  ℕ, ◌+◌, ◌*◌, ◌/◌, ◌%◌, ◌<◌, ◌≡◌, inl, inr, Bool, false, ◌&&◌, not, ltb, leb, none, some,
  Bool-cases, arith,
}
use mantra_os.Common.Word.{u64_mod, saturating_add}
use mantra_os.Common.Run.{done}
use mantra_os.Bootinfo.{MemoryRegion}
use mantra_os.Pmm.{Range, is_usable, usable_range, reserved_range}
use mantra_os.Pmm.Align.{align_up-page, align_up-panic, align_down-page}
use mantra_os.Pmm.Cover.{within, IsPaged}

-- The fields of a region are u64 values.
abbrev pub IsRegion : MemoryRegion → Type 0
IsRegion r = (r.base < u64_mod) × (r.len < u64_mod)

-- The start of the page of an address.
abbrev pub page : ℕ → ℕ
page a = a / 4096 * 4096

abbrev pub region_end : MemoryRegion → ℕ
region_end r = saturating_add r.base r.len

-- The whole page of `a` lies in a usable region.
abbrev pub usable_page : MemoryRegion → ℕ → Bool
usable_page r a = is_usable r && (leb r.base (page a) && leb (page a + 4096) (region_end r))

-- The page of `a` meets a region that is not usable.
abbrev pub reserved_page : MemoryRegion → ℕ → Bool
reserved_page r a =
    not (is_usable r)
    && (ltb 0 r.len && (ltb r.base (page a + 4096) && ltb (page a) (region_end r)))

pub usable_range-none :
    (r : MemoryRegion) (a : ℕ) → IsRegion r → usable_range r ≡ done none → usable_page r a ≡ false
unfolding usable_range
usable_range-none r a h e = elim (Bool-cases (ltb (r.base + 4095) u64_mod)) [
  | inl small ↦ ground (arith, align_up-page r.base, align_down-page (region_end r))
  | inr big ↦ ground (arith, align_up-panic r.base)
]

pub usable_range-some :
    (r : MemoryRegion) (x : Range) (a : ℕ)
    → IsRegion r
    → usable_range r ≡ done (some x)
    → IsPaged x × (within x a ≡ usable_page r a)
unfolding usable_range
usable_range-some r x a h e = elim (Bool-cases (ltb (r.base + 4095) u64_mod)) [
  | inl small ↦ ground (arith, align_up-page r.base, align_down-page (region_end r))
  | inr big ↦ absurd (ground (arith, align_up-panic r.base))
]

pub reserved_range-none :
    (r : MemoryRegion) (a : ℕ)
    → IsRegion r
    → reserved_range r ≡ done none
    → reserved_page r a ≡ false
unfolding reserved_range
reserved_range-none r a h e = elim (Bool-cases (ltb (region_end r + 4095) u64_mod)) [
  | inl small ↦ ground (arith, align_up-page (region_end r), align_down-page r.base)
  | inr big ↦ ground (arith, align_up-panic (region_end r))
]

pub reserved_range-some :
    (r : MemoryRegion) (x : Range) (a : ℕ)
    → IsRegion r
    → reserved_range r ≡ done (some x)
    → (x.base < x.end)
      × (x.base % 4096 ≡ 0)
      × (x.end % 4096 ≡ 0)
      × ((leb x.base a && ltb a x.end) ≡ reserved_page r a)
unfolding reserved_range
reserved_range-some r x a h e = elim (Bool-cases (ltb (region_end r + 4095) u64_mod)) [
  | inl small ↦ ground (arith, align_up-page (region_end r), align_down-page r.base)
  | inr big ↦ absurd (ground (arith, align_up-panic (region_end r)))
]
