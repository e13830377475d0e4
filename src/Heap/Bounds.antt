-- ===== src/Heap/Bounds.antt =====
-- The blocks of the bump allocator of kernel/src/heap.rs, and the back-off of its `init`.
use mantra_os.Common.{
  ℕ, zero, suc, ◌+◌, ◌/◌, ◌%◌, ◌^◌, ◌≤◌, ◌<◌, ◌≡◌, inl, inr, leb, ◌∙◌, Option, none, some,
  Bool-cases, refl, leb→le, arith,
}
use mathlib.Core.Option
use mantra_os.Common.Word.{u64_max, saturating_add}
use mantra_os.Common.Run.{done, Run-cases}
use mantra_os.Pmm.{Pmm, alloc_pages}
use mantra_os.Pmm.Align.{align_up, align_up_lem}
use mantra_os.Pmm.Pool.{remaining, IsPool}
use mantra_os.Pmm.Alloc.{IsSpent, alloc_pages_cases, alloc_pages-spent}
use mantra_os.Heap.{Bump, grab, alloc}

pub record IsHeap (h : Bump) : Type 0 where
  pub low : h.start ≤ h.next
  pub high : h.next ≤ h.end
  pub in_word : h.end < u64_max

-- A block of `size` bytes at `p`, taken from `h`, which leaves `h'`.
pub record Bumped (size align p : ℕ) (h h' : Bump) : Type 0 where
  pub above : h.next ≤ p
  pub next : h'.next ≡ p + size
  pub inside : p + size ≤ h.end
  pub aligned : p % align ≡ 0
  pub heap : IsHeap h'
  pub region : (h'.start ≡ h.start) × (h'.end ≡ h.end)

grab_granted :
    (fuel pages p : ℕ) (pmm : Pmm) (out : Option Pmm)
    → 128 ≤ pages
    → alloc_pages pages (some pmm) ≡ (some p, out)
    → grab (suc fuel) pages (some pmm) ≡ (some (p, pages), out)
unfolding grab
grab_granted fuel pages p pmm out h e = ground arith

grab_refused :
    (fuel pages : ℕ) (pmm : Pmm) (out : Option Pmm)
    → 128 ≤ pages
    → alloc_pages pages (some pmm) ≡ (none, out)
    → grab (suc fuel) pages (some pmm) ≡ grab fuel (pages / 2) out
unfolding grab
grab_refused fuel pages pmm out h e = ground arith

grab_small : (fuel pages : ℕ) (pmm : Option Pmm) → pages < 128 → grab fuel pages pmm ≡ (none, pmm)
unfolding grab
grab_small zero pages pmm h = refl
grab_small (suc fuel) pages pmm h = ground arith

-- A back-off that starts on a spent allocator finds nothing.
grab_spent :
    (fuel pages : ℕ) (pmm : Pmm) → IsSpent pmm → grab fuel pages (some pmm) ≡ (none, some pmm)
grab_spent zero pages pmm h = unfold grab in refl
grab_spent (suc fuel) pages pmm h = elim (Bool-cases (leb 128 pages)) [
  | inl big ↦
      grab_refused fuel pages pmm (some pmm) (leb→le _ _ big) (alloc_pages-spent pages pmm h)
      ∙ grab_spent fuel (pages / 2) pmm h
  | inr small ↦ grab_small (suc fuel) pages (some pmm) (ground arith)
]

-- With any fuel of at least one round, where the free ranges from the cursor on are whole pages, in
-- order and disjoint, the halving of the request changes nothing: `init` finds a block exactly when
-- its first request, of 4096 pages, is granted, and then takes that block.
pub grab-first :
    (fuel : ℕ) (pmm : Pmm)
    → IsPool 0 (remaining pmm)
    → (grab (suc fuel) 4096 (some pmm)).0
      ≡ Option.map (λ p. (p, 4096)) (alloc_pages 4096 (some pmm)).0
grab-first fuel pmm s = elim (alloc_pages_cases 4096 pmm s) [
  | inl (z, _) ↦ absurd (omega arith)
  | inr (inl (pmm', e, spent)) ↦
      rw
        (grab_refused fuel 4096 pmm (some pmm') (omega arith) e, e, grab_spent fuel 2048 pmm' spent)
  | inr (inr (p, pmm', e)) ↦ rw (grab_granted fuel 4096 p pmm (some pmm') (omega arith) e, e)
]

-- A block is above all earlier ones, and the next free address is its end.
pub alloc_above :
    (size p : ℕ) (h h' : Bump)
    → alloc size 1 h ≡ done (some p, h')
    → (h.next ≤ p) × (h'.next ≡ saturating_add p size)
unfolding alloc
alloc_above size p h h' q = elim (Run-cases (align_up h.next 1)) [
  | inl bad ↦ absurd (ground arith)
  | inr (start, found) ↦
      let place = align_up_lem 0 64 h.next start refl found in
      let at : p ≡ start = ground arith in rw at (place.0, ground arith)
]

-- For an alignment that is a power of two, a block from a well-formed heap is aligned, starts at or
-- above the end of all earlier blocks and ends within the heap; the next free address is its end,
-- the heap's region is as before, and the heap stays well formed.
pub alloc-Bumped :
    (k w size p : ℕ) (h h' : Bump)
    → k + w ≡ 64
    → IsHeap h
    → alloc size (2 ^ k) h ≡ done (some p, h')
    → Bumped size (2 ^ k) p h h'
unfolding alloc
alloc-Bumped k w size p h h' e v q = elim (Run-cases (align_up h.next (2 ^ k))) [
  | inl bad ↦ absurd (ground arith)
  | inr (start, found) ↦
      let place = align_up_lem k w h.next start e found in
      let at : p ≡ start = ground arith in
      rw at (record {
        above = place.0;
        next = ground arith;
        inside = ground arith;
        aligned = place.2;
        heap = ground arith;
        region = ground arith;
      })
]
