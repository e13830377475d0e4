-- ===== src/Steps/Tests.antt =====
-- The first process, a timer interrupt, and some instructions of a program.
use mantra_os.Common.{ℕ, ◌≡◌, refl, ◌+◌, ◌*◌, [], none, true, arith}
use mantra_os.Sched.{install_first, set_rsp0}
use mantra_os.Sched
use mantra_os.Sched.Stacks.{install_first-Stable}
use mantra_os.Common.Run.{Run, done, panic}
use mantra_os.Sched.{on_timer_irq}
use mantra_os.Ipc
use mantra_os.Ipc.Confine.{install_first-Confined, set_rsp0-Confined}
use mantra_os.Machine.{Kernel}
use mantra_os.Elf.{Elf}
use mantra_os.User.{initial_frame}
use mantra_os.Isr.{timer_trap}
use mantra_os.Steps.{Processor, trap_frame, trapped, resumed, timer, here, next}
use mantra_os.Steps.Safe.{Safe, Reach-Safe}

abbrev first : Sched.Sched
first = set_rsp0 (0x9008 + 20 * 8) (install_first 0x9008 (0x9008 + 20 * 8) 0x5000 Sched.boot)

abbrev kernel : Kernel
kernel = record {
  sched = first;
  ipc = Ipc.boot;
  pmm = none;
  heap = record { start = 0x5000; end = 0xa000; next = 0x9008 + 20 * 8; ready = true };
  range = record { kernel_base = 0; kernel_end = 0; max_phys = 0 };
  mem = λ a. 0;
  frames = λ tf. initial_frame 0x1000_0000 0x1fff_fff8 0 0;
  cr3 = 0x5000;
  serial = [];
}

abbrev started : Processor
started = resumed 0x9008 kernel

started-Safe : Safe started
started-Safe = record {
  running = record {
    stable = install_first-Stable 0x9008 0x5000 Sched.boot (omega arith);
    frame = (omega arith, omega arith, omega arith);
  };
  confined =
      set_rsp0-Confined (0x9008 + 20 * 8) (install_first 0x9008 (0x9008 + 20 * 8) 0x5000 Sched.boot)
        Ipc.boot (install_first-Confined 0x9008 (0x9008 + 20 * 8) 0x5000 Sched.boot);
}

abbrev outcome : Run (ℕ × Kernel) → ℕ × Kernel
outcome panic = (0, kernel)
outcome (done out) = out

abbrev ended : ℕ × Kernel
ended = outcome (timer_trap (trap_frame started) (trapped started))

abbrev interrupted : Processor
interrupted = resumed ended.0 ended.1

interrupts : timer_trap (trap_frame started) (trapped started) ≡ done ended
unfolding timer_trap on_timer_irq install_first
interrupts = refl

abbrev no_program : Elf
no_program = []

Reach-Safe_example : Safe interrupted
Reach-Safe_example =
    Reach-Safe no_program started interrupted
      (next started interrupted interrupted (timer started ended.0 ended.1 interrupts)
        (here interrupted))
      started-Safe
