-- ===== src/Paging/Tests.antt =====
-- A page of the kernel's mappings.
use mantra_os.Common.{◌+◌, ◌≡◌, refl, [], ◌∷◌, some, arith}
use mantra_os.Tables.{Phys, map_4k}
use mantra_os.Paging.{kmap_base, kmap_map_4k}
use mantra_os.Paging.Same.{kmap_map_4k-eq-map_4k}

abbrev start : Phys
start = record {
  pmm = some (record { ranges = record { base = 0x10_0000; end = 0x20_0000 } ∷ []; cursor = 0 });
  mem = λ a. 0;
}

kmap_map_4k-eq-map_4k_example :
    kmap_map_4k 0x8_0000 (kmap_base + 0x3000) 0x7000 0 start
    ≡ map_4k 0x8_0000 (kmap_base + 0x3000) 0x7000 2 start
kmap_map_4k-eq-map_4k_example =
    kmap_map_4k-eq-map_4k 0x8_0000 (kmap_base + 0x3000) 0x7000 0 start
      (λ e. absurd (omega (arith, e))) (omega arith) (omega arith) refl
