-- ===== src/Isr/Tests.antt =====
-- A kernel of two processes, at the end of its traps.
use mantra_os.Common.{◌≡◌, ◌≢◌, refl, arith, true, false, [], none}
use mantra_os.Sched.{Sched, install_first, proc_at}
use mantra_os.Sched.Pick.{runs}
use mantra_os.Sched.Sample.{two, two-IsTable, two-other, two-cap}
use mantra_os.Ipc.{boot, ep_create}
use mantra_os.Ipc.Sample.{waited, waits}
use mantra_os.Memory.Sample.{unmapped}
use mantra_os.Heap.{new}
use mantra_os.Machine.{Frame, Kernel, set_rax}
use mantra_os.Isr.{syscall, handle, wait_or}
use mantra_os.Common.Run.{done}
use mantra_os.Elf.{Elf}
use mantra_os.Ipc.Confine.{Confined, install_first-Confined}
use mantra_os.Isr.Confine.{syscall-Confined}
use mantra_os.Isr.Trap.{wait_or-switches}

-- Capability 1, and a buffer of 256 bytes at 0x400000.
abbrev frame : Frame
frame = record {
  r15 = 0;
  r14 = 0;
  r13 = 0;
  r12 = 0;
  r11 = 0;
  r10 = 0;
  r9 = 0;
  r8 = 0;
  rsi = 0x40_0000;
  rdi = 1;
  rbp = 0;
  rdx = 256;
  rcx = 0;
  rbx = 0;
  rax = 0x12;
  rip = 0;
  cs = 0;
  rflags = 0;
  rsp = 0;
  ss = 0;
}

abbrev running : Kernel
running = record {
  sched = two;
  ipc = boot;
  pmm = none;
  heap = new;
  range = record { kernel_base = 0; kernel_end = 0; max_phys = 0 };
  mem = unmapped;
  frames = λ tf. frame;
  cr3 = 0x5000;
  serial = [];
}

wait_or-switches_example :
    let out = wait_or (set_rax 0x9008) 0x9008 running in
    (out.1.sched.current ≢ 0)
    × (runs two out.1.sched.current ≡ true)
    × (out.0 ≡ (proc_at two out.1.sched.current).tf_rsp)
    × (runs out.1.sched 0 ≡ false)
    × ((proc_at out.1.sched 0).blocked_ep ≡ 3)
wait_or-switches_example =
    wait_or-switches (set_rax 0x9008) 0x9008 3 running two-IsTable refl two-other two-cap waits

abbrev receiver_waits : Kernel
receiver_waits = record running { ipc = waited }

abbrev first : Sched
first = install_first 0x9000 0xa000 0x5000 two

-- The first process creates an endpoint.
abbrev creating : Kernel
creating = record running { sched = first; frames = λ tf. record frame { rax = 0x10 } }

abbrev created : Kernel
created =
    set_rax 0x9000 (ep_create first boot).0
      (record creating { sched = (ep_create first boot).1; ipc = (ep_create first boot).2 })

abbrev no_init : Elf
no_init = []

creates : syscall no_init 0x9000 creating ≡ done (0, created)
unfolding syscall handle
creates = refl

syscall-Confined_example : Confined created.sched created.ipc
syscall-Confined_example =
    syscall-Confined no_init 0x9000 0 creating created
      (install_first-Confined 0x9000 0xa000 0x5000 two) (omega arith) creates
