-- ===== src/Loader/Tests.antt =====
-- A program of one segment: two bytes in the file, three in memory.
use mantra_os.Common.{
  ℕ, ◌+◌, ◌-◌, ◌*◌, ◌/◌, ◌<◌, ◌≡◌, refl, List, [], ◌∷◌, ◌++◌, some, replicate, arith,
}
use mantra_os.Common.Run.{Run, done, panic}
use mantra_os.Common.Word.{saturating_add, u64_mod}
use mantra_os.Pmm.{Pmm, alloc_pages, alloc_frame}
use mantra_os.Pmm.Align.{align_up, align_down}
use mantra_os.Memory.{read_u64, write_u64, index_at}
use mantra_os.Elf.{Elf, Phdr, field, refused, header, phdr_size, program_header}
use mantra_os.Elf.Valid.{IsElf}
use mantra_os.Tables.{Phys, alloc_table, map_4k, translate_4k}
use mantra_os.Loader.{load_segment, load_segments, load_elf_into_user}
use mantra_os.Loader.Fuel.{segment_with, segment-fuel}
use mantra_os.Loader.Accept.{IsWithin, load_elf-IsElf}

abbrev word : ℕ → List ℕ
word n = n ∷ 0 ∷ 0 ∷ 0 ∷ 0 ∷ 0 ∷ 0 ∷ 0 ∷ []

abbrev code_base : List ℕ
code_base = 0 ∷ 0 ∷ 0 ∷ 0x10 ∷ 0 ∷ 0 ∷ 0 ∷ 0 ∷ []

abbrev program : Elf
program =
    (0x7f ∷ b'E' ∷ b'L' ∷ b'F' ∷ 2 ∷ 1 ∷ replicate 12 0)
    ++ (0x3e ∷ replicate 5 0)
    ++ code_base
    ++ word 64
    ++ replicate 14 0
    ++ (56 ∷ 0 ∷ 1 ∷ replicate 7 0)
    ++ (1 ∷ 0 ∷ 0 ∷ 0 ∷ 5 ∷ 0 ∷ 0 ∷ 0 ∷ [])
    ++ word 120
    ++ code_base
    ++ replicate 8 0
    ++ word 2
    ++ word 3
    ++ replicate 8 0
    ++ (0xeb ∷ 0xfe ∷ [])

abbrev manager : Pmm
manager = record { ranges = record { base = 0x10_0000; end = 0x20_0000 } ∷ []; cursor = 0 }

abbrev start : Phys
start = record { pmm = some manager; mem = λ a. 0 }

abbrev state_of : {A : Type 0} → Run (A × Phys) → Phys
state_of panic = start
state_of (done (a, st)) = st

abbrev rooted : Phys
rooted = state_of (alloc_table start)

abbrev in_memory : Phys
in_memory = state_of (load_elf_into_user 0x10_0000 program rooted)

loads : load_elf_into_user 0x10_0000 program rooted ≡ done (some 0x1000_0000, in_memory)
unfolding load_elf_into_user load_segment load_segments refused header program_header map_4k
    translate_4k alloc_table alloc_frame alloc_pages read_u64 write_u64 index_at align_down align_up
loads = refl

load_elf-IsElf_example :
    IsElf program
    × (0x1000_0000 ≡ field program 24 8)
    × ((k : ℕ)
        → k < field program 56 2
        → IsWithin program (program_header program (field program 32 8 + k * phdr_size)))
load_elf-IsElf_example =
    load_elf-IsElf 0x10_0000 0x1000_0000 program rooted in_memory (omega arith) loads

segment : Phdr
segment = program_header program 64

segment_ends : align_up (saturating_add segment.vaddr segment.memsz) 4096 ≡ done 0x1000_1000
unfolding align_up segment program_header
segment_ends = refl

segment_small : segment.vaddr < u64_mod
unfolding segment program_header
segment_small = omega arith

segment-fuel_example :
    load_segment 0x10_0000 program segment rooted
    ≡ segment_with
        ((0x1000_1000 - align_down segment.vaddr 4096) / 4096 + 9)
        0x10_0000
        program
        segment
        0x1000_1000
        rooted
segment-fuel_example =
    segment-fuel 9 0x10_0000 0x1000_1000 program segment rooted segment_small segment_ends
