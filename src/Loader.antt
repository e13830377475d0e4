-- ===== src/Loader.antt =====
-- `load_elf_into_user` of kernel/src/user.rs: the segments of the user program, mapped and filled.
pub mod Fuel
pub mod Accept
mod Tests
use mantra_os.Common.{
  ℕ, zero, suc, ◌+◌, ◌-◌, ◌*◌, ◌/◌, Bool, true, false, not, ◌||◌, ltb, ◌==◌, if◌then◌else◌, Option,
  none, some, length, get_or,
}
use mantra_os.Common.Bits.{bit_and, bit_or}
use mantra_os.Common.Word.{saturating_add}
use mantra_os.Common.Run.{Run, done, panic, checked_add}
use mantra_os.Pmm.{alloc_frame}
use mantra_os.Pmm.Align.{align_up, align_down}
use mantra_os.Memory.{write_byte, pte_rw, pte_u}
use mantra_os.Tables.{Phys, Build, ◌>>=◌, ◌>>◌, pure, lift, expect, has, map_4k, translate_4k}
use mantra_os.Elf.{Elf, Phdr, phdr_size, program_header, header, refused, beyond}

-- `PT_LOAD`
abbrev pub pt_load : ℕ
pt_load = 1

-- `PF_W`
abbrev pub pf_w : ℕ
pf_w = 2

abbrev pub segment_flags : Phdr → ℕ
segment_flags ph = if has pf_w ph.flags then bit_or pte_u pte_rw else pte_u

-- The loop that maps the pages from `v` up to `seg_end`, with fuel.
pub map_pages : ℕ → ℕ → ℕ → ℕ → ℕ → Build (Unit {0})
map_pages zero pml4 v seg_end flags st = done (tt, st)
map_pages (suc fuel) pml4 v seg_end flags st = elim (ltb v seg_end) [
  | false ↦ done (tt, st)
  | true ↦
      (expect alloc_frame >>= λ p. map_4k pml4 v p flags >>= λ _.
      lift (checked_add v 4096) >>= λ v'. map_pages fuel pml4 v' seg_end flags)
        st
]

-- The loop that copies `n` bytes of the file, the first of them number `off` of the segment. `false`
-- is the early return of `None`.
pub copy_file : ℕ → ℕ → ℕ → Elf → Phdr → Build Bool
copy_file zero off pml4 elf ph st = done (true, st)
copy_file (suc n) off pml4 elf ph st = elim (checked_add ph.vaddr off) [
  | panic ↦ panic
  | done va ↦ elim (translate_4k st.mem pml4 va) [
    | none ↦ done (false, st)
    | some pa ↦
        copy_file n (off + 1) pml4 elf ph
          (record st { mem = write_byte st.mem pa (get_or elf (ph.offset + off) 0) })
  ]
]

-- The loop that clears `n` bytes, the first of them `off` bytes past those of the file.
pub clear_rest : ℕ → ℕ → ℕ → Phdr → Build Bool
clear_rest zero off pml4 ph st = done (true, st)
clear_rest (suc n) off pml4 ph st = elim (checked_add ph.vaddr ph.filesz) [
  | panic ↦ panic
  | done start ↦ elim (checked_add start off) [
    | panic ↦ panic
    | done va ↦ elim (translate_4k st.mem pml4 va) [
      | none ↦ done (false, st)
      | some pa ↦ clear_rest n (off + 1) pml4 ph (record st { mem = write_byte st.mem pa 0 })
    ]
  ]
]

-- The copy of the bytes that the file has for a segment.
pub copy_segment : ℕ → Elf → Phdr → Build Bool
unfolding copy_file
copy_segment pml4 elf ph =
    if ph.filesz == 0
    then pure true
    else if beyond ph.offset ph.filesz (length elf)
    then pure false
    else copy_file ph.filesz 0 pml4 elf ph

pub fill_segment : ℕ → Elf → Phdr → Build Bool
unfolding copy_segment clear_rest
fill_segment pml4 elf ph = do
  copied ← copy_segment pml4 elf ph
  if copied then clear_rest (ph.memsz - ph.filesz) 0 pml4 ph else pure false

-- The body of the loop over the program headers from the mapping on.
pub load_segment : ℕ → Elf → Phdr → Build Bool
unfolding map_pages fill_segment
load_segment pml4 elf ph = do
  let seg_start = align_down ph.vaddr 4096
  seg_end ← lift (align_up (saturating_add ph.vaddr ph.memsz) 4096)
  map_pages ((seg_end - seg_start) / 4096) pml4 seg_start seg_end (segment_flags ph)
  fill_segment pml4 elf ph

-- The loop over the program headers, with `n` left from number `i` on.
pub load_segments : ℕ → ℕ → ℕ → ℕ → Elf → Build Bool
load_segments zero i phoff pml4 elf st = done (true, st)
load_segments (suc n) i phoff pml4 elf st =
    let ph = program_header elf (phoff + i * phdr_size) in
    let next = load_segments n (i + 1) phoff pml4 elf in
    if not (ph.type == pt_load) || ph.memsz == 0
    then next st
    else (load_segment pml4 elf ph >>= λ ok. if ok then next else pure false) st

-- The answer is the entry point.
pub load_elf_into_user : ℕ → Elf → Build (Option ℕ)
unfolding load_segments
load_elf_into_user pml4 elf =
    let eh = header elf in
    let load = load_segments eh.phnum 0 eh.phoff pml4 elf in
    if refused elf then pure none else (load >>= λ ok. pure (if ok then some eh.entry else none))
