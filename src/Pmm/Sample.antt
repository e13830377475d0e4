-- ===== src/Pmm/Sample.antt =====
-- A memory map with a kernel, a framebuffer and the tables of the boot loader, and what `init` of
-- kernel/src/pmm.rs makes of it.
use mantra_os.Common.{◌≡◌, refl, List, [], ◌∷◌, some}
use mantra_os.Common.Run.{done}
use mantra_os.Bootinfo.{MemoryRegion}
use mantra_os.Pmm.Align.{align_up, align_down}
use mantra_os.Pmm.{
  Pmm, PmmStats, init, finish, collect, reserve_all, usable_range, reserved_range, sort_by_base,
  sort_from, shift_in, unwind, merge_adjacent, merge_into, subtract_reserved, subtract_from, pieces,
  drop_empty, sum_free,
}

abbrev pub handed_over : List MemoryRegion
handed_over =
    record { base = 0x10_0000; len = 0x8_0000; kind = 1 }
    ∷ record { base = 0x20_0000; len = 0x1000; kind = 5 }
    ∷ record { base = 0x10_0000; len = 0x2_3000; kind = 6 }
    ∷ record { base = 0x8000_0000; len = 0x30_0000; kind = 8 }
    ∷ record { base = 0x15_0000; len = 0x1000; kind = 7 }
    ∷ record { base = 0x16_0000; len = 0x8000; kind = 7 }
    ∷ []

abbrev pub manager : Pmm
manager = record {
  ranges =
      record { base = 0x12_3000; end = 0x15_0000 }
      ∷ record { base = 0x15_1000; end = 0x16_0000 }
      ∷ record { base = 0x16_8000; end = 0x18_0000 }
      ∷ [];
  cursor = 0;
}

abbrev pub stats : PmmStats
stats = record { usable_bytes = 0x8_0000; free_bytes = 0x5_4000; range_count = 3 }

pub handed_over-init : init handed_over ≡ done (some (manager, stats))
unfolding init finish collect reserve_all usable_range reserved_range align_up align_down
    sort_by_base sort_from shift_in unwind merge_adjacent merge_into subtract_reserved subtract_from
    pieces drop_empty sum_free
handed_over-init = refl
