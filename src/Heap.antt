-- ===== src/Heap.antt =====
-- kernel/src/heap.rs: the bump allocator behind `#[global_allocator]`, and how `init` gets its
-- region from the physical memory manager.
pub mod Bounds
mod Tests
use mantra_os.Common.{
  ℕ, zero, suc, ◌+◌, ◌*◌, ◌/◌, ◌≤◌, Bool, true, false, not, ltb, leb, if◌then◌else◌, Option, none,
  some,
}
use mantra_os.Common.Word.{saturating_add, wrapping_add}
use mantra_os.Common.Run.{Run, done, panic, ◌>>=◌, checked_add}
use mantra_os.Pmm.{Pmm, alloc_pages}
use mantra_os.Pmm.Align.{align_up}

-- `Bump`.
pub record Bump : Type 0 where
  pub start : ℕ
  pub end : ℕ
  pub next : ℕ
  pub ready : Bool

-- `LockedBump::new`.
abbrev pub new : Bump
new = record { start = 0; end = 0; next = 0; ready = false }

abbrev pub hhdm_base : ℕ
hhdm_base = 0xffff_8000_0000_0000

-- `paging::phys_to_virt`.
abbrev pub phys_to_virt : ℕ → ℕ
phys_to_virt phys = wrapping_add hhdm_base phys

-- The loop of `init` that asks for pages, with fuel: the block and its size in pages.
pub grab : ℕ → ℕ → Option Pmm → Option (ℕ × ℕ) × Option Pmm
grab zero pages pmm = (none, pmm)
grab (suc fuel) pages pmm =
    let (p, pmm') = alloc_pages pages pmm in
    let again = grab fuel (pages / 2) pmm' in
    if leb 128 pages
    then elim p [ none ↦ again | some base ↦ (some (base, pages), pmm') ]
    else (none, pmm)

-- `init`: 4096, 2048, 1024, 512, 256 and 128 pages are six rounds, and the seventh ends the loop.
pub init : Bump → Option Pmm → Run (Bump × Option Pmm)
unfolding grab
init h pmm =
    let (block, pmm') = grab 7 4096 pmm in
    elim block [
      | none ↦ done (h, pmm')
      | some (base, pages) ↦
          let base_v = phys_to_virt base in
          checked_add base_v (pages * 4096) >>= λ end.
          done (record { start = base_v; end = end; next = base_v; ready = true }, pmm')
    ]

-- `KernelAlloc::alloc` for a layout of `size` bytes at alignment `align`; `none` is the null pointer.
pub alloc : ℕ → ℕ → Bump → Run (Option ℕ × Bump)
alloc size align h = if not h.ready then done (none, h) else do
  start ← align_up h.next align
  let end = saturating_add start size
  done (if ltb h.end end then (none, h) else (some start, record h { next = end }))

-- `KernelAlloc::dealloc` gives nothing back.
pub dealloc : ℕ → Bump → Bump
dealloc ptr h = h
