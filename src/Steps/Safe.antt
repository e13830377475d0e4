-- ===== src/Steps/Safe.antt =====
-- What holds after any steps of the machine.
use mantra_os.Common.{◌≤◌, ℕ, arith}
use mantra_os.Ipc.Confine.{Confined}
use mantra_os.Machine.{Kernel}
use mantra_os.Elf.{Elf}
use mantra_os.Sched.Stacks.{AtTop}
use mantra_os.Isr.Running.{Running, syscall_trap-Running, timer_trap-Running}
use mantra_os.Isr.Trapping.{call-Confined, timer-Confined}
use mantra_os.Steps.{
  Processor, trap_frame, trapped, resumed, Step, entry_frame, program, call, timer, Reach, here,
  next,
}

-- The process that runs is the current one, its next trap is saved at the top of its own kernel stack,
-- kernel stacks are apart, and the capabilities and messages name endpoints that have been created only.
pub record Safe (p : Processor) : Type 0 where
  pub running : Running (trap_frame p) p.kernel
  pub confined : Confined p.kernel.sched p.kernel.ipc

-- The next trap of a running process is saved at the top of its stack.
next_frame : (tf : ℕ) (k : Kernel) → Running tf k → AtTop k.sched.rsp0 (entry_frame k.sched.rsp0)
next_frame tf k w = let deep : 176 ≤ k.sched.rsp0 = omega (arith, w.frame) in omega arith

resumed-Safe : (tf : ℕ) (k : Kernel) → Running tf k → Confined k.sched k.ipc → Safe (resumed tf k)
resumed-Safe tf k w c = record {
  running = record { stable = w.stable; frame = next_frame tf k w };
  confined = c;
}

-- The registers that the stub saves are no part of the scheduler.
trapped-Running : (p : Processor) → Safe p → Running (trap_frame p) (trapped p)
trapped-Running p h = record { stable = h.running.stable; frame = h.running.frame }

-- Every step keeps both.
pub Step-Safe : (elf : Elf) (p q : Processor) → Step elf p q → Safe p → Safe q
Step-Safe elf p q (program _ regs mem) h = record {
  running = record { stable = h.running.stable; frame = h.running.frame };
  confined = h.confined;
}
Step-Safe elf p q (call _ tf k small made) h =
    resumed-Safe tf k
      (syscall_trap-Running elf (trap_frame p) tf (trapped p) k (trapped-Running p h) made)
      (call-Confined elf (trap_frame p) tf (trapped p) k h.confined small made)
Step-Safe elf p q (timer _ tf k made) h =
    resumed-Safe tf k
      (timer_trap-Running (trap_frame p) tf (trapped p) k (trapped-Running p h) made)
      (timer-Confined (trap_frame p) tf (trapped p) k h.running.stable.started h.confined made)

-- Whatever the programs, the calls and the timer do, in any order and for any number of steps, a
-- machine that is safe stays so: the frame of every live process ends in the last 16 bytes of its own
-- kernel stack, where the next trap of the process that runs is saved too, the kernel stacks of two
-- live processes share no byte and lie below what the heap gives next, the process that runs is the
-- current one, in its own address space and with its own stack for the next trap, and every capability
-- and every message names endpoints that have been created, of which there are at most 32. The calls
-- and the timer interrupts are those that do not panic, and before a call the count of endpoints does
-- not wrap.
pub Reach-Safe : (elf : Elf) (p q : Processor) → Reach elf p q → Safe p → Safe q
Reach-Safe elf p q (here _) h = h
Reach-Safe elf p q (next _ m _ first rest) h = Reach-Safe elf m q rest (Step-Safe elf p m first h)
