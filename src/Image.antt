-- ===== src/Image.antt =====
-- The kernel's image, as boot/src/main.rs loads it. The ELF library's program headers of type `Load`
-- and the firmware's answer to a request for pages are arguments.
pub mod Placement
pub mod Kernel
mod Tests
use mantra_os.Common.{
  ℕ, ◌+◌, ◌-◌, ◌*◌, ◌/◌, ◌^◌, min, max, Bool, ◌&&◌, ◌||◌, not, ltb, leb, ◌==◌, if◌then◌else◌, List,
  [], ◌∷◌, length, get_or, Option, none, some,
}
use mantra_os.Common.Bits.{bit_and}
use mantra_os.Common.Word.{u64_max, saturating_add}
use mantra_os.Common.Run.{Run, done, panic, ◌>>=◌, checked_add}
use mantra_os.Pmm.Align.{bit_not}
use mantra_os.Memory.{Mem}

-- A program header: what `virtual_addr`, `mem_size`, `file_size` and `offset` answer.
pub record Segment : Type 0 where
  pub vaddr : ℕ
  pub memsz : ℕ
  pub filesz : ℕ
  pub offset : ℕ

-- The loop that finds the lowest and the highest address.
pub span : ℕ → ℕ → List Segment → ℕ × ℕ
span min_addr max_addr [] = (min_addr, max_addr)
span min_addr max_addr (ph ∷ phs) =
    span (min min_addr ph.vaddr) (max max_addr (saturating_add ph.vaddr ph.memsz)) phs

-- `load_base` and `load_end`.
pub load_range : List Segment → Run (Option (ℕ × ℕ))
unfolding span
load_range phs =
    let (min_addr, max_addr) = span u64_max 0 phs in
    if min_addr == u64_max || leb max_addr min_addr
    then done none
    else (checked_add max_addr 0xfff >>= λ top.
        done (some (bit_and min_addr (bit_not 0xfff), bit_and top (bit_not 0xfff))))

-- `load_mem.fill(0)`
abbrev pub filled : Mem → ℕ → ℕ → Mem
filled m base len a = if leb base a && ltb a (base + len) then 0 else m a

-- `copy_from_slice`, to physical memory at `dst`.
abbrev pub copied : Mem → ℕ → List ℕ → ℕ → ℕ → Mem
copied m dst bytes off n a =
    if leb dst a && ltb a (dst + n) then get_or bytes (off + (a - dst)) 0 else m a

-- The body of the second loop: `none` is `LOAD_ERROR`.
pub place_segment : List ℕ → ℕ → ℕ → Segment → Mem → Run (Option Mem)
place_segment bytes base len ph m =
    if ltb ph.memsz ph.filesz
    then done none
    else if ltb (length bytes) (saturating_add ph.offset ph.filesz)
    then done none
    else if ltb ph.vaddr base
    then panic
    else if ltb len (saturating_add (ph.vaddr - base) ph.memsz)
    then done none
    else done (some (copied m (base + (ph.vaddr - base)) bytes ph.offset ph.filesz))

pub place_segments : List ℕ → ℕ → ℕ → List Segment → Mem → Run (Option Mem)
unfolding place_segment
place_segments bytes base len [] m = done (some m)
place_segments bytes base len (ph ∷ phs) m = elim (place_segment bytes base len ph m) [
  | panic ↦ panic
  | done none ↦ done none
  | done (some m') ↦ place_segments bytes base len phs m'
]

-- The kernel in memory.
pub record Loaded : Type 0 where
  pub load_base : ℕ
  pub load_end : ℕ
  pub mem : Mem

-- From the program headers on: `allocate` says whether the firmware has given the pages at that
-- address; `none` is a status other than success.
unfoldable pub load_kernel : (ℕ → ℕ → Bool) → List ℕ → List Segment → Mem → Run (Option Loaded)
unfolding load_range place_segments
load_kernel allocate bytes phs m = elim (load_range phs) [
  | panic ↦ panic
  | done none ↦ done none
  | done (some (base, end)) ↦
      let len = (end - base) / 4096 * 4096 in
      if not (allocate base ((end - base) / 4096))
      then done none
      else elim (place_segments bytes base len phs (filled m base len)) [
        | panic ↦ panic
        | done none ↦ done none
        | done (some m') ↦ done (some (record { load_base = base; load_end = end; mem = m' }))
      ]
]
