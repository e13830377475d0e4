-- ===== src/Arch/Rings.antt =====
-- Which segments the selectors of the kernel name: those that kernel/src/arch/x86_64/gdt.rs loads,
-- and those in the first trap frame of a process (kernel/src/user.rs).
use mantra_os.Common.{
  ℕ, ◌+◌, ◌-◌, ◌*◌, ◌/◌, ◌%◌, ◌^◌, ◌<◌, ◌≡◌, refl, ap, Bool, true, false, if◌then◌else◌, leb, ltb,
  ◌==◌, List, length, get_or, arith,
}
use mantra_os.Machine.{Frame}
use mantra_os.User.{initial_frame}
use mantra_os.Arch.Gdt.{
  Tss, new, Statics, Segments, GdtState, tss_size, int_stack_size, gdt_tss64, gdt_entries, lgdt,
  init,
}
use mantra_os.Arch.Descriptors.{SystemSegment, system_segment, tss_at, system_segment-gdt_tss64}

-- The fields of a code or data descriptor that 64-bit mode reads.
pub record Segment : Type 0 where
  pub present : ℕ
  pub dpl : ℕ
  pub storage : ℕ
  pub executable : ℕ
  pub writable : ℕ
  pub long : ℕ

unfoldable pub segment : ℕ → Segment
segment d = record {
  present = d / 2 ^ 47 % 2;
  dpl = d / 2 ^ 45 % 2 ^ 2;
  storage = d / 2 ^ 44 % 2;
  executable = d / 2 ^ 43 % 2;
  writable = d / 2 ^ 41 % 2;
  long = d / 2 ^ 53 % 2;
}

-- A code segment of a ring. In a code segment the second flag lets its bytes be read.
abbrev pub code_of_ring : ℕ → Segment
code_of_ring ring = record {
  present = 1;
  dpl = ring;
  storage = 1;
  executable = 1;
  writable = 1;
  long = 1;
}

-- A data segment of a ring, which can be written.
abbrev pub data_of_ring : ℕ → Segment
data_of_ring ring = record {
  present = 1;
  dpl = ring;
  storage = 1;
  executable = 0;
  writable = 1;
  long = 1;
}

-- What a selector names: its low three bits are no part of the index.
abbrev pub named : List ℕ → ℕ → Segment
named table sel = segment (get_or table (sel / 8) 0)

abbrev pub named_system : List ℕ → ℕ → SystemSegment
named_system table sel = system_segment (get_or table (sel / 8) 0, get_or table (sel / 8 + 1) 0)

-- What the registers name after `init`.
pub record IsLoaded (at : Statics) (g : GdtState) : Type 0 where
  pub table_at : g.regs.gdtr_base ≡ at.gdt
  pub table_limit : g.regs.gdtr_limit + 1 ≡ length g.table * 8
  pub code_segment : named g.table g.regs.cs ≡ code_of_ring 0
  pub data_segment : named g.table g.regs.ds ≡ data_of_ring 0
  pub extra_segment : named g.table g.regs.es ≡ data_of_ring 0
  pub stack_segment : named g.table g.regs.ss ≡ data_of_ring 0
  pub task : named_system g.table g.regs.tr ≡ tss_at 0xb at.tss0 (tss_size - 1)
  pub trap_stack : g.tss.rsp0 ≡ at.kernel_int_stack0 + int_stack_size
  pub fault_stack : g.tss.ist1 ≡ at.df_ist_stack + int_stack_size

-- After `init`, for any registers before it and a TSS at an address below 2^64: GDTR covers exactly
-- the entries, CS names a code segment and DS, ES and SS a writable data segment of ring 0, the task
-- register names the TSS, marked busy, with its size, and the TSS holds the tops of the two stacks.
pub init-IsLoaded :
    (at : Statics) (tss : Tss) (regs : Segments) → at.tss0 < 2 ^ 64 → IsLoaded at (init at tss regs)
unfolding init gdt_entries lgdt gdt_tss64 segment
init-IsLoaded at tss regs h = record {
  table_at = refl;
  table_limit = refl;
  code_segment = refl;
  data_segment = refl;
  extra_segment = refl;
  stack_segment = refl;
  task = system_segment-gdt_tss64 at.tss0 (tss_size - 1) h (omega arith);
  trap_stack = refl;
  fault_stack = refl;
}

-- A frame that `iretq` takes to ring 3: its selectors ask for ring 3 and name segments of ring 3,
-- interrupts are on, and the I/O privilege level is that of ring 0.
pub record EntersUser (table : List ℕ) (f : Frame) : Type 0 where
  pub code_ring : f.cs % 4 ≡ 3
  pub code_segment : named table f.cs ≡ code_of_ring 3
  pub stack_ring : f.ss % 4 ≡ 3
  pub stack_segment : named table f.ss ≡ data_of_ring 3
  pub interrupts : f.rflags / 2 ^ 9 % 2 ≡ 1
  pub io_level : f.rflags / 2 ^ 12 % 4 ≡ 0

-- The first frame of every process, by the descriptors that `init` has loaded.
pub initial_frame-EntersUser :
    (entry user_rsp role cap : ℕ) (at : Statics) (tss : Tss) (regs : Segments)
    → EntersUser (init at tss regs).table (initial_frame entry user_rsp role cap)
unfolding init gdt_entries segment
initial_frame-EntersUser entry user_rsp role cap at tss regs = record {
  code_ring = refl;
  code_segment = refl;
  stack_ring = refl;
  stack_segment = refl;
  interrupts = refl;
  io_level = refl;
}

-- Whether the program of a frame may use a port, by the privilege level and else by the bitmap in the
-- TSS that the task register names: a port whose byte of the bitmap lies past the limit is shut.
-- `mem` is the memory of the TSS and beyond.
abbrev pub port_open : (ℕ → ℕ) → GdtState → Frame → ℕ → Bool
port_open mem g f port =
    let task = named_system g.table g.regs.tr in
    let byte = g.tss.iomap_base + port / 8 in
    if leb (f.cs % 4) (f.rflags / 2 ^ 12 % 4)
    then true
    else if ltb task.limit (byte + 1)
    then false
    else mem (task.base + byte) / 2 ^ (port % 8) % 2 == 0

-- From the TSS of `Tss::new`, at any address below 2^64, with any registers before `init` and any
-- memory: the first frame of every process, for any entry point, stack, role and capability, is one
-- that `iretq` takes to ring 3 with interrupts on, by the descriptors that `init` has loaded; and its
-- program may use no port, neither by its privilege level nor by the bitmap of the TSS.
pub initial_frame-shut :
    (entry user_rsp role cap : ℕ) (at : Statics) (regs : Segments) (mem : ℕ → ℕ)
    → at.tss0 < 2 ^ 64
    → let g = init at new regs in
      let f = initial_frame entry user_rsp role cap in
      EntersUser g.table f × ((port : ℕ) → port_open mem g f port ≡ false)
initial_frame-shut entry user_rsp role cap at regs mem h =
    let task = ap (λ s. s.limit) (init-IsLoaded at new regs h).task in
    (
      initial_frame-EntersUser entry user_rsp role cap at new regs,
      λ port. unfold init in ground (arith, task),
    )
