-- ===== src/Heap/Tests.antt =====
-- A block from a small heap, and the heap's first request of a small memory.
use mantra_os.Common.{◌^◌, ◌≡◌, refl, [], ◌∷◌, some, true, arith}
use mathlib.Core.Option
use mantra_os.Common.Run.{done}
use mantra_os.Pmm.{Pmm, alloc_pages}
use mantra_os.Pmm.Align.{align_up}
use mantra_os.Heap.{Bump, alloc, grab}
use mantra_os.Heap.Bounds.{Bumped, alloc-Bumped, grab-first}

abbrev small : Bump
small = record { start = 0x1000; end = 0x2000; next = 0x1005; ready = true }

gets : alloc 24 (2 ^ 4) small ≡ done (some 0x1010, record small { next = 0x1028 })
unfolding alloc align_up
gets = refl

alloc-Bumped_example : Bumped 24 (2 ^ 4) 0x1010 small (record small { next = 0x1028 })
alloc-Bumped_example =
    alloc-Bumped 4 60 24 0x1010 small (record small { next = 0x1028 }) refl
      (record { low = omega arith; high = omega arith; in_word = omega arith }) gets

-- 15 MiB: less than the 4096 pages of the first request, and more than the 2048 of the second.
abbrev fifteen : Pmm
fifteen = record { ranges = record { base = 0x10_0000; end = 0x100_0000 } ∷ []; cursor = 0 }

grab-first_example :
    (grab 7 4096 (some fifteen)).0 ≡ Option.map (λ p. (p, 4096)) (alloc_pages 4096 (some fifteen)).0
grab-first_example = grab-first 6 fifteen (omega arith, (omega arith, refl, refl, omega arith), tt)
