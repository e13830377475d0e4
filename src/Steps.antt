-- ===== src/Steps.antt =====
-- The machine once the first process is entered: the program in ring 3, the system calls and the
-- timer interrupts of kernel/src/arch/x86_64/isr.rs, in any order.
pub mod Safe
mod Tests
use mantra_os.Common.{ℕ, ◌+◌, ◌-◌, ◌*◌, ◌/◌, ◌<◌, ◌≡◌}
use mantra_os.Common.Word.{u64_mod}
use mantra_os.Common.Run.{done}
use mantra_os.Memory.{Mem}
use mantra_os.Machine.{Frame, Kernel, set_frame}
use mantra_os.Elf.{Elf}
use mantra_os.User.{frame_size}
use mantra_os.Isr.{syscall_trap, timer_trap}

-- The registers of the program that runs, and the kernel.
pub record Processor : Type 0 where
  pub regs : Frame
  pub kernel : Kernel

-- Where the stub's last push leaves the stack pointer: the processor starts from `rsp0`, rounded down
-- to 16 bytes as in every interrupt of 64-bit mode, and it and the stub push a whole frame.
abbrev pub entry_frame : ℕ → ℕ
entry_frame rsp0 = rsp0 / 16 * 16 - frame_size

abbrev pub trap_frame : Processor → ℕ
trap_frame p = entry_frame p.kernel.sched.rsp0

-- The kernel when the stub calls its handler.
abbrev pub trapped : Processor → Kernel
trapped p = set_frame (trap_frame p) p.regs p.kernel

-- `mantra_trap_return` from the frame at `tf`.
abbrev pub resumed : ℕ → Kernel → Processor
resumed tf k = record { regs = k.frames tf; kernel = k }

-- One step. A program may change its registers and memory as it likes, which leaves open what the
-- page tables allow it; a call or a timer interrupt is one that does not panic, and before a call
-- the count of endpoints does not wrap.
pub data Step (elf : Elf) : Processor → Processor → Type 0 where
  program :
      (p : Processor) (regs : Frame) (mem : Mem)
      → Step elf p (record { regs = regs; kernel = record p.kernel { mem = mem } })
  call :
      (p : Processor) (tf : ℕ) (k : Kernel)
      → p.kernel.ipc.next_ep + 1 < u64_mod
      → syscall_trap elf (trap_frame p) (trapped p) ≡ done (tf, k)
      → Step elf p (resumed tf k)
  timer :
      (p : Processor) (tf : ℕ) (k : Kernel)
      → timer_trap (trap_frame p) (trapped p) ≡ done (tf, k)
      → Step elf p (resumed tf k)

-- Any number of steps.
pub data Reach (elf : Elf) : Processor → Processor → Type 0 where
  here : (p : Processor) → Reach elf p p
  next : (p q r : Processor) → Step elf p q → Reach elf q r → Reach elf p r
