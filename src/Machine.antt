-- ===== src/Machine.antt =====
-- The state that the trap handlers of the kernel work on: the statics of its modules, physical
-- memory, the trap frames, the page-table root in CR3, and the bytes sent to the serial port.
use mantra_os.Common.{ℕ, ◌%◌, ◌^◌, List, ◌++◌, Option, ◌==◌, if◌then◌else◌}
use mantra_os.Pmm.{Pmm}
use mantra_os.Heap.{Bump}
use mantra_os.Sched.{Sched}
use mantra_os.Ipc.{Ipc}
use mantra_os.Memory.{Mem}

-- `TrapFrame` and `SyscallFrame` of kernel/src/arch/x86_64/isr.rs, and `TaskTrapFrame` of
-- kernel/src/user.rs, which are laid out alike.
pub record Frame : Type 0 where
  pub r15 : ℕ
  pub r14 : ℕ
  pub r13 : ℕ
  pub r12 : ℕ
  pub r11 : ℕ
  pub r10 : ℕ
  pub r9 : ℕ
  pub r8 : ℕ
  pub rsi : ℕ
  pub rdi : ℕ
  pub rbp : ℕ
  pub rdx : ℕ
  pub rcx : ℕ
  pub rbx : ℕ
  pub rax : ℕ
  pub rip : ℕ
  pub cs : ℕ
  pub rflags : ℕ
  pub rsp : ℕ
  pub ss : ℕ

-- `BOOT_KB`, `BOOT_KE` and `BOOT_MAX` of kernel/src/user.rs.
pub record BootRange : Type 0 where
  pub kernel_base : ℕ
  pub kernel_end : ℕ
  pub max_phys : ℕ

-- `frames` holds the trap frame at each kernel stack address; a process's frame lies on its own
-- kernel stack, which no user page shares.
pub record Kernel : Type 0 where
  pub sched : Sched
  pub ipc : Ipc
  pub pmm : Option Pmm
  pub heap : Bump
  pub range : BootRange
  pub mem : Mem
  pub frames : ℕ → Frame
  pub cr3 : ℕ
  pub serial : List ℕ

abbrev pub set_frame : ℕ → Frame → Kernel → Kernel
set_frame tf f k = record k { frames = λ p. if p == tf then f else k.frames p }

-- `tf.rax = v`.
abbrev pub set_rax : ℕ → ℕ → Kernel → Kernel
set_rax tf v k = set_frame tf (record (k.frames tf) { rax = v }) k

-- `tf.rdx = v`.
abbrev pub set_rdx : ℕ → ℕ → Kernel → Kernel
set_rdx tf v k = set_frame tf (record (k.frames tf) { rdx = v }) k

abbrev pub set_rax_rdx : ℕ → ℕ → ℕ → Kernel → Kernel
set_rax_rdx tf v w k = set_frame tf (record (k.frames tf) { rax = v; rdx = w }) k

abbrev pub set_rsi : ℕ → ℕ → Kernel → Kernel
set_rsi tf v k = set_frame tf (record (k.frames tf) { rsi = v }) k

-- Bytes handed to `serial::write_byte`, which waits for the port and sends.
abbrev pub send_serial : List ℕ → Kernel → Kernel
send_serial bytes k = record k { serial = k.serial ++ bytes }

-- `v as u32`.
abbrev pub u32 : ℕ → ℕ
u32 v = v % 2 ^ 32
