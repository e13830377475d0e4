-- ===== src/Tables/Tests.antt =====
-- An address space of one page, from cleared memory.
use mantra_os.Common.{ℕ, ◌≡◌, refl, [], ◌∷◌, none, some, arith}
use mantra_os.Common.Run.{Run, done, panic}
use mantra_os.Pmm.{Pmm, alloc_pages}
use mantra_os.Pmm.Align.{align_down}
use mantra_os.Memory.{read_u64, write_u64, index_at}
use mantra_os.Tables.{Phys, alloc_table, map_4k, translate_4k}
use mantra_os.Tables.Space.{Space}
use mantra_os.Tables.Translate.{Mapped}
use mantra_os.Tables.Root.{alloc_table-Space}
use mantra_os.Tables.Map.{map_4k-Mapped}
use mantra_os.Tables.Guard.{Guarded, map_4k-Guarded}

-- Free memory from 1 MiB up to 2 MiB.
abbrev manager : Pmm
manager = record { ranges = record { base = 0x10_0000; end = 0x20_0000 } ∷ []; cursor = 0 }

abbrev start : Phys
start = record { pmm = some manager; mem = λ a. 0 }

abbrev left_in : {A : Type 0} → Phys → Run (A × Phys) → Phys
left_in st panic = st
left_in st (done (a, st')) = st'

abbrev rooted : Phys
rooted = left_in start (alloc_table start)

rooted_run : alloc_table start ≡ done (0x10_0000, rooted)
unfolding alloc_table alloc_pages
rooted_run = refl

alloc_table-Space_example :
    Space 0x10_0000 rooted × ((virt : ℕ) → translate_4k rooted.mem 0x10_0000 virt ≡ none)
alloc_table-Space_example =
    alloc_table-Space manager 0x10_0000 start rooted refl
      (omega arith, (omega arith, refl, refl, omega arith), tt) (λ a c. ground arith) rooted_run

-- A page for user mode, which may be written.
abbrev mapped : Phys
mapped = left_in rooted (map_4k 0x10_0000 0x4000_3abc 0x7_5000 6 rooted)

mapped_run : map_4k 0x10_0000 0x4000_3abc 0x7_5000 6 rooted ≡ done (tt, mapped)
unfolding map_4k alloc_table alloc_pages read_u64 write_u64 index_at align_down
mapped_run = refl

map_4k-Mapped_example : Mapped 0x10_0000 0x4000_3abc 0x7_5000 rooted mapped
map_4k-Mapped_example =
    map_4k-Mapped 0x10_0000 0x4000_3abc 0x7_5000 6 rooted mapped (omega arith) (omega arith)
      (omega arith) alloc_table-Space_example.0 mapped_run

-- The offset of the address in the page is kept.
translates : translate_4k mapped.mem 0x10_0000 0x4000_3abc ≡ some 0x7_5abc
translates = map_4k-Mapped_example.here 0x4000_3abc refl

map_4k-Guarded_example : Guarded 0x10_0000 0x4000_3abc 0x7_5000 6 mapped.mem
map_4k-Guarded_example =
    map_4k-Guarded 0x10_0000 0x4000_3abc 0x7_5000 6 rooted mapped (omega arith) (omega arith)
      (omega arith) (omega arith) alloc_table-Space_example.0 mapped_run
