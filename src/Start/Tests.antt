-- ===== src/Start/Tests.antt =====
-- A start on a machine with one usable region of 64 MiB.
use mantra_os.Common.{◌+◌, ◌*◌, refl, true, if◌then◌else◌, ◌==◌, [], ◌∷◌, none, some}
use mantra_os.Bootinfo.{BootInfo, magic, version}
use mantra_os.Memory.{Mem}
use mantra_os.Sched
use mantra_os.Sched.{set_rsp0}
use mantra_os.Ipc
use mantra_os.Heap
use mantra_os.Paging
use mantra_os.Paging.{kmap_smoke_test}
use mantra_os.Fb
use mantra_os.Fb.{PixelFormat}
use mantra_os.Machine.{Kernel}
use mantra_os.Elf.{Elf}
use mantra_os.User.{initial_frame}
use mantra_os.Arch.Gdt.{Segments}
use mantra_os.Arch.Gdt
use mantra_os.Arch.Idt.{empty_idt}
use mantra_os.Start.{World, Placement, Library, start}
use mantra_os.Start.Same.{After}
use mantra_os.Start.Enters.{Ends, start-Ends}

-- The map: base 0x10_0000, length 64 MiB, kind 1.
abbrev map_memory : Mem
map_memory a = if a == 0x5002 then 0x10 else if a == 0x500b then 4 else if a == 0x5010 then 1 else 0

abbrev regs : Segments
regs = record { gdtr_base = 0; gdtr_limit = 0; cs = 0x38; ds = 0x30; es = 0x30; ss = 0x30; tr = 0 }

abbrev kernel : Kernel
kernel = record {
  sched = Sched.boot;
  ipc = Ipc.boot;
  pmm = none;
  heap = Heap.new;
  range = record { kernel_base = 0; kernel_end = 0; max_phys = 0 };
  mem = map_memory;
  frames = λ tf. initial_frame 0 0 0 0;
  cr3 = 0x1000;
  serial = [];
}

abbrev powered : World
powered = record {
  kernel = kernel;
  con = Fb.new (record {
    base = 0;
    size = 0;
    width = 0;
    height = 0;
    stride = 0;
    format = PixelFormat.unknown;
  });
  gdt = record { table = []; tss = Gdt.new; regs = regs };
  idt = empty_idt;
  ports = [];
  paging = Paging.at_start;
  interrupts = true;
}

abbrev place : Placement
place = record {
  statics = record {
    df_ist_stack = 0x801_0000;
    kernel_int_stack0 = 0x802_0000;
    tss0 = 0x803_0000;
    gdt = 0x804_0000;
  };
  handlers = record {
    breakpoint_handler = 0x800_0100;
    double_fault_handler = 0x800_0200;
    gp_fault_handler = 0x800_0300;
    page_fault_handler = 0x800_0400;
    timer_irq_stub = 0x800_0500;
    syscall80_stub = 0x800_0600;
  };
  regs = regs;
  after_int3 = record { rip = 0x800_0700; cs = 8; rflags = 0; rsp = 0; ss = 0x10 };
}

-- A library that prints nothing and asks for two allocations.
abbrev library : Library
library = record {
  display = λ n. [];
  alternate_hex = λ n. [];
  debug = λ f. [];
  asks = (128, 8) ∷ (8, 8) ∷ [];
}

abbrev info : BootInfo
info = record {
  magic = magic;
  version = version;
  fb_base = 0;
  fb_size = 0;
  fb_width = 0;
  fb_height = 0;
  fb_stride = 0;
  fb_format = 0;
  regions_ptr = 0x5000;
  regions_len = 1;
  kernel_phys_base = 0x800_0000;
  kernel_phys_end = 0x800_1000;
}

abbrev no_program : Elf
no_program = []

start-Ends_example :
    After
      (Ends (set_rsp0 (0x802_0000 + 16 * 1024) Sched.boot) Ipc.boot)
      (start library no_program place (some info) powered)
start-Ends_example = start-Ends library no_program place (some info) powered refl
