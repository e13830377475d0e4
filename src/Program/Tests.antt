-- ===== src/Program/Tests.antt =====
-- The printer in the first process.
use mantra_os.Common.{◌+◌, ◌*◌, ◌≡◌, [], none}
use mantra_os.Common.Run.{done}
use mantra_os.Sched.{install_first}
use mantra_os.Sched
use mantra_os.Ipc
use mantra_os.Heap
use mantra_os.Serial.{write_hex_u64}
use mantra_os.Elf.{Elf}
use mantra_os.User.{initial_frame}
use mantra_os.Steps.{Processor}
use mantra_os.Program.{stopped, put_hex, calls}
use mantra_os.Program.Prints.{Sent, put_hex-Sent}

abbrev first : Processor
first = record {
  regs = initial_frame 0x1000_0000 0x1fff_fff8 0 0;
  kernel = record {
    sched = install_first 0x9000 (0x9000 + 20 * 8) 0x5000 Sched.boot;
    ipc = Ipc.boot;
    pmm = none;
    heap = Heap.new;
    range = record { kernel_base = 0; kernel_end = 0; max_phys = 0 };
    mem = λ a. 0;
    frames = λ tf. initial_frame 0x1000_0000 0x1fff_fff8 0 0;
    cr3 = 0x5000;
    serial = [];
  };
}

abbrev no_program : Elf
no_program = []

put_hex-Sent_example :
    (q : Processor) × (calls 18 no_program (put_hex 0xbeef stopped) first ≡ done (stopped, q))
    × Sent (write_hex_u64 0xbeef) first q
put_hex-Sent_example = put_hex-Sent no_program 0xbeef stopped first
