-- ===== src/Pmm/Tests.antt =====
-- A small memory map, and what kernel/src/pmm.rs makes of it.
use mantra_os.Common.{◌^◌, ◌≡◌, refl, List, [], ◌∷◌, none, some, All, arith}
use mantra_os.Common.Run.{done}
use mantra_os.Bootinfo.{MemoryRegion}
use mantra_os.Pmm.{
  Range, Pmm, PmmStats, sort_by_base, merge_adjacent, subtract_reserved, subtract_from, pieces,
  sort_from, shift_in, unwind, merge_into, usable_range, reserved_range, collect, reserve_all,
  drop_empty, sum_free, finish, init, try_range, alloc_loop, alloc_pages,
}
use mantra_os.Pmm.Align.{align_up, align_down}
use mantra_os.Pmm.Subtract.{Subtracted, subtract_lem}
use mantra_os.Pmm.Init.{IsRegion}
use mantra_os.Pmm.Build.{Built, init-Built}
use mantra_os.Pmm.Pool.{IsPool, remaining, Granted}
use mantra_os.Pmm.Alloc.{IsSpent, IsSmall, alloc_pages-Granted, alloc_pages-refused}
use mantra_os.Pmm.Serve.{IsIn, IsFree, IsUsable, AllApart, serve, serve-AllApart, init_then_serve}

-- Low memory, the kernel's image in the middle of the next megabyte, and a map out of order.
abbrev map_of_boot : List MemoryRegion
map_of_boot =
    record { base = 0x10_0000; len = 0x8_0800; kind = 1 }
    ∷ record { base = 0; len = 0x9_f000; kind = 1 }
    ∷ record { base = 0x14_0010; len = 0x1000; kind = 6 }
    ∷ []

abbrev booted : Pmm
booted = record {
  ranges =
      record { base = 0x10_0000; end = 0x14_0000 }
      ∷ record { base = 0x14_2000; end = 0x18_0000 }
      ∷ [];
  cursor = 0;
}

abbrev stats_of_boot : PmmStats
stats_of_boot = record { usable_bytes = 0x11_f000; free_bytes = 0x7_e000; range_count = 2 }

boot_runs : init map_of_boot ≡ done (some (booted, stats_of_boot))
unfolding init finish collect reserve_all usable_range reserved_range align_up align_down
    sort_by_base sort_from shift_in unwind merge_adjacent merge_into subtract_reserved subtract_from
    pieces drop_empty sum_free
boot_runs = refl

map_fits : All IsRegion map_of_boot
map_fits =
    ((omega arith, omega arith), ((omega arith, omega arith), ((omega arith, omega arith), tt)))

init-Built_example : Built map_of_boot booted stats_of_boot
init-Built_example = init-Built map_of_boot booted stats_of_boot map_fits boot_runs

init_then_serve_example :
    All (IsIn (IsUsable map_of_boot)) (serve (2 ∷ 100 ∷ 1 ∷ []) (some booted))
    × AllApart (serve (2 ∷ 100 ∷ 1 ∷ []) (some booted))
init_then_serve_example =
    init_then_serve map_of_boot (2 ∷ 100 ∷ 1 ∷ []) booted stats_of_boot map_fits boot_runs

booted-IsPool : IsPool 0 (remaining booted)
booted-IsPool = (
  omega arith,
  (omega arith, refl, refl, omega arith),
  (omega arith, (omega arith, refl, refl, omega arith), tt),
)

serve-AllApart_example :
    All (IsIn (IsFree booted)) (serve (2 ∷ 100 ∷ 1 ∷ []) (some booted))
    × AllApart (serve (2 ∷ 100 ∷ 1 ∷ []) (some booted))
serve-AllApart_example = serve-AllApart (2 ∷ 100 ∷ 1 ∷ []) booted booted-IsPool

abbrev after_two : Pmm
after_two = record {
  ranges =
      record { base = 0x10_2000; end = 0x14_0000 }
      ∷ record { base = 0x14_2000; end = 0x18_0000 }
      ∷ [];
  cursor = 0;
}

two_pages : alloc_pages 2 (some booted) ≡ (some 0x10_0000, some after_two)
unfolding alloc_pages alloc_loop try_range
two_pages = refl

alloc_pages-Granted_example : Granted 2 0x10_0000 (remaining booted) (remaining after_two)
alloc_pages-Granted_example =
    alloc_pages-Granted 2 0x10_0000 booted after_two booted-IsPool two_pages

-- 65 pages fit in neither range.
abbrev spent : Pmm
spent = record booted { cursor = 2 }

too_many : alloc_pages 65 (some booted) ≡ (none, some spent)
unfolding alloc_pages alloc_loop try_range
too_many = refl

alloc_pages-refused_example :
    ((alloc_pages 65 (some booted) ≡ (none, some spent))
      → IsSpent spent × All (IsSmall 65) (remaining booted))
    × (All (IsSmall 65) (remaining booted) → (alloc_pages 65 (some booted)).0 ≡ none)
alloc_pages-refused_example = alloc_pages-refused 65 booted spent (omega arith) booted-IsPool

abbrev one_range : List Range
one_range = record { base = 0; end = 0x4000 } ∷ []

abbrev split : List Range
split = record { base = 0; end = 0x1000 } ∷ record { base = 0x2000; end = 0x4000 } ∷ []

splits : subtract_reserved one_range 0x1000 0x2000 ≡ some split
unfolding subtract_reserved subtract_from pieces
splits = refl

subtract_lem_example : Subtracted one_range 0x1000 0x2000 split
subtract_lem_example =
    subtract_lem one_range 0x1000 0x2000 {out = split} (omega arith) refl refl
      (omega arith, (omega arith, refl, refl, omega arith), tt) (omega arith) splits

rounds_up : align_up 5000 (2 ^ 12) ≡ done 8192
unfolding align_up
rounds_up = refl
