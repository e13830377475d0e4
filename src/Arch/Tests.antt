-- ===== src/Arch/Tests.antt =====
-- The processor's tables with statics and handlers at addresses of the kernel image.
use mantra_os.Common.{ℕ, ◌/◌, ◌<◌, ◌≡◌, refl, some, true, false, [], get_or, arith}
use mantra_os.User.{initial_frame}
use mantra_os.Arch.Gdt.{Statics, Segments}
use mantra_os.Arch.Gdt
use mantra_os.Arch.Idt.{Handlers, missing, empty_idt}
use mantra_os.Arch.Idt
use mantra_os.Arch.Ports.{pic_init, pit_init}
use mantra_os.Arch.Devices.{Devices, fourth_word, mask_word, run, passes, vector}
use mantra_os.Arch.Rings.{IsLoaded, init-IsLoaded, EntersUser, port_open, initial_frame-shut}
use mantra_os.Arch.Gates.{Addresses, gate, meant, interrupt_gate, gate-init}
use mantra_os.Arch.Lines.{passes-timer, run-pit_init}
use mantra_os.Arch.Stub.{
  Regs, Return, pushes, push_all, entry, words, frame_of, trap_return, regs_of, return_of,
  trap_return-push_all,
}

abbrev statics : Statics
statics = record {
  df_ist_stack = 0x801_0000;
  kernel_int_stack0 = 0x802_0000;
  tss0 = 0xffff_8000_0803_0000;
  gdt = 0x804_0000;
}

abbrev segments : Segments
segments = record {
  gdtr_base = 0;
  gdtr_limit = 0;
  cs = 0x38;
  ds = 0x30;
  es = 0x30;
  ss = 0x30;
  tr = 0;
}

init-IsLoaded_example : IsLoaded statics (Gdt.init statics Gdt.new segments)
init-IsLoaded_example = init-IsLoaded statics Gdt.new segments (omega arith)

-- Memory that would open every port, if the processor took it for the bitmap.
initial_frame-shut_example :
    let g = Gdt.init statics Gdt.new segments in
    let f = initial_frame 0x1000_0000 0x1fff_fff8 1 1 in
    EntersUser g.table f × ((port : ℕ) → port_open (λ a. 0) g f port ≡ false)
initial_frame-shut_example =
    initial_frame-shut 0x1000_0000 0x1fff_fff8 1 1 statics segments (λ a. 0) (omega arith)

abbrev handlers : Handlers
handlers = record {
  breakpoint_handler = 0x800_0100;
  double_fault_handler = 0x800_0200;
  gp_fault_handler = 0x800_0300;
  page_fault_handler = 0x800_0400;
  timer_irq_stub = 0x800_0500;
  syscall80_stub = 0xffff_8000_0800_0600;
}

low : Addresses handlers
low = record {
  breakpoint = omega arith;
  double_fault = omega arith;
  gp_fault = omega arith;
  page_fault = omega arith;
  timer = omega arith;
  syscall = omega arith;
}

gate-init_example :
    gate (get_or (Idt.init 8 handlers empty_idt) 0x80 missing) ≡ meant 8 handlers 0x80
gate-init_example = gate-init 8 0x80 handlers low

-- Controllers that the firmware left in the middle of something.
abbrev firmware : Devices
firmware = record {
  master = record { offset = 0x68; mask = 0xb8; expects = fourth_word; ended = 7 };
  slave = record { offset = 0x70; mask = 0x8e; expects = mask_word; ended = 3 };
  counter = record { low = 0x12; high_next = false; load = 0 };
}

timer_on : passes (run pic_init firmware) 0 ≡ true
unfolding run passes
timer_on = refl

passes-timer_example :
    (◌≡◌ {A = ℕ} 0 0)
    × (gate (get_or (Idt.init 8 handlers empty_idt) (vector (run pic_init firmware) 0) missing)
        ≡ interrupt_gate 8 0 0 0x800_0500)
passes-timer_example =
    passes-timer firmware 8 0 handlers low (omega arith) timer_on (λ e. absurd (omega (arith, e)))

run-pit_init_example :
    let c = (run (pit_init 100) firmware).counter in
    (c.load ≡ 1193182 / 100) × (c.high_next ≡ false) × (0 < c.load) × (c.load < 65536)
run-pit_init_example = run-pit_init 100 firmware

abbrev some_regs : Regs
some_regs = record {
  r15 = 15;
  r14 = 14;
  r13 = 13;
  r12 = 12;
  r11 = 11;
  r10 = 10;
  r9 = 9;
  r8 = 8;
  rsi = 7;
  rdi = 6;
  rbp = 5;
  rdx = 4;
  rcx = 3;
  rbx = 2;
  rax = 1;
}

abbrev back : Return
back = record { rip = 0x1000_0010; cs = 0x33; rflags = 0x202; rsp = 0x1fff_ff00; ss = 0x2b }

trap_return-push_all_example :
    (push_all pushes some_regs (entry back []) ≡ words (frame_of some_regs back))
    × (trap_return some_regs (words (initial_frame 0x1000_0000 0x1fff_fff8 1 1))
        ≡ some (
          regs_of (initial_frame 0x1000_0000 0x1fff_fff8 1 1),
          return_of (initial_frame 0x1000_0000 0x1fff_fff8 1 1),
          [],
        ))
trap_return-push_all_example =
    trap_return-push_all some_regs some_regs back (initial_frame 0x1000_0000 0x1fff_fff8 1 1)
