-- ===== src/Lib.antt =====
-- MantraOS: a model of the core of the kernel, and what is proved of it.
--
-- The program is a small x86_64 kernel with preemptive processes that talk through capability-based
-- message endpoints. The parts, and the files here that model them:
--
-- * Pmm.antt and Pmm/: kernel/src/pmm.rs, the physical memory manager. `init` turns the boot memory
--   map (Bootinfo.antt: libs/bootinfo/src/lib.rs) into a sorted list of free page ranges, and
--   `alloc_pages` cuts blocks off the range under a cursor. The fixed array with its length is a
--   list of at most 128 ranges; `false` and `Err` are `none`. Pmm/Cover says what a list of ranges
--   holds, Sort, Merge, Subtract, Init, Loops and Build follow the steps of `init`, and Pool, Alloc
--   and Serve follow requests. Pmm/Align has the rounding that several modules of the kernel repeat.
-- * Boot.antt and Boot/: the memory map that boot/src/main.rs hands to the kernel, from the sorted map
--   of the firmware. Boot/Safe follows it through the memory manager.
-- * Image.antt and Image/: the placement of the kernel image in boot/src/main.rs. The program headers
--   that the ELF library finds and the firmware's answer to the request for pages are arguments.
-- * Handover.antt and Handover/: `main` of boot/src/main.rs, which puts the two together. The answers
--   of the firmware and the ELF library's parse are a record of arguments, and the tables that the
--   kernel is entered with are values.
-- * Heap.antt and Heap/: kernel/src/heap.rs, the bump allocator, which gets its region from the
--   physical memory manager.
-- * Sched.antt and Sched/: kernel/src/sched.rs, the table of eight processes, the round-robin switch
--   and each process's table of 32 capabilities. The statics are the fields of the record `Sched`.
-- * Ipc.antt and Ipc/: kernel/src/ipc.rs, 32 endpoints, each a ring of 32 messages and a ring of 8
--   waiting processes. Capabilities are looked up in the scheduler's table of the current process.
-- * Memory.antt and Memory/: the page walk and the copies of user memory in
--   kernel/src/arch/x86_64/isr.rs, over physical memory as a function from addresses to bytes.
-- * Tables.antt and Tables/: the page tables of a process in kernel/src/user.rs (`alloc_table`,
--   `get_or_alloc_table`, `map_4k`, `map_hhdm_huge`, `translate_4k`), over the same memory. The code
--   runs in `Build`, which passes the memory and the manager of its pages on and may panic.
--   Tables/Entries says what a step through an entry finds after a write, Tree and Grow how a tree of
--   tables changes, Space, Enter, Translate, Map and Root what the functions do to it.
-- * Paging.antt and Paging/: the kernel's own page tables in kernel/src/arch/x86_64/paging.rs, and the
--   mapping of a page there against the one of Tables.antt.
-- * Elf.antt, Elf/, Loader.antt and Loader/: `load_elf_into_user` of kernel/src/user.rs. The file is
--   an argument, since the build generates it.
-- * Machine.antt, User.antt and User/: the state of the whole kernel, and the rest of
--   kernel/src/user.rs: the address space, the kernel stack and the first frame of a process, the
--   spawn call and the start of the first process.
-- * Isr.antt and Isr/: the system calls, the delivery of messages and the ends of the traps of
--   kernel/src/arch/x86_64/isr.rs. The saved frames are a function from kernel stack addresses.
--   The processor rounds the stack pointer down to 16 bytes before it saves a frame, so that a frame
--   ends in the last 16 bytes of a stack.
--   Isr/Stable, Landing and Running follow the place of the saved frames and of the kernel stacks
--   (Sched/Stacks, Sched/Fences) through the calls.
-- * Arch.antt and Arch/: the rest of kernel/src/arch/x86_64. Gdt and Idt are the tables of gdt.rs and
--   idt.rs, Ports the port writes of pic.rs, pit.rs and port.rs, Stub the pushes and pops of the
--   assembly stubs in isr.rs. Descriptors, Rings and Gates say how the processor reads the tables,
--   and Devices how the devices take the writes; those four are descriptions of the hardware. Lines
--   puts the interrupt lines and the gates together.
-- * Start.antt and Start/: `_start` of kernel/src/main.rs, which starts the parts in order. What the
--   linker places, what `fmt` prints and what `Vec` and `Box` ask of the allocator are parameters.
-- * Steps.antt and Steps/: the machine after the start, as a relation of steps: the program in ring 3,
--   a system call, a timer interrupt.
-- * Program.antt and Program/: userland/init/src/main.rs, the program of both processes, as the
--   system calls that it makes, and its printer on the machine.
-- * Serial.antt and Serial/: the printers of numbers in kernel/src/serial.rs and in
--   userland/init/src/main.rs.
-- * Sched/Confine, Sched/Spawn, Ipc/Bound, Ipc/Confine, User/Confine, Isr/Sending, Isr/Confine and
--   Isr/Trapping follow the endpoints that capabilities and messages name through the parts.
-- * Fb.antt and Fb/: the framebuffer console of kernel/src/fb.rs.
-- * Common.antt and Common/: lists over the native numbers, Boolean tests, masks, the wrapping and
--   saturating operations on u64, and `Run`, a result or a panic.
--
-- Numbers are natural numbers with the wrap-around of the source written out. Plain `+` panics when
-- it overflows, as in the debug build that tools/build.sh makes; so `align_up` may panic. Interrupts
-- are off in the kernel, so a trap is one step, a function from the state to the state.
--
-- Loops are structural, except for four that run on fuel. The loop of `alloc_pages` gets the number
-- of ranges: each round moves the cursor on or ends. The loop of the heap's `init` gets 7 rounds:
-- it halves 4096 pages until fewer than 128 are left. The loops that map the pages of a segment and
-- of the kernel get the number of those pages.
--
-- The endless loops of the user program are followed for a number of rounds that is an argument.
--
-- Not modelled: the firmware and the boot loader's messages on its console, the bytes in which the
-- boot loader writes its two tables, the build script, the wait for the serial port, the log lines
-- that the init functions of the parts send, the reads of the instruction stream by the processor,
-- and the flush of its translations by `invlpg`. A program in ring 3 may change its registers and
-- memory as it likes: that is more than its page tables allow, so what holds then holds for every
-- program.
pub mod Common
pub mod Bootinfo
pub mod Arch
pub mod Boot
pub mod Pmm
pub mod Paging
pub mod Heap
pub mod Sched
pub mod Ipc
pub mod Serial
pub mod Memory
pub mod Tables
pub mod Elf
pub mod Fb
pub mod Loader
pub mod Machine
pub mod Start
pub mod Steps
pub mod Program
pub mod User
pub mod Image
pub mod Handover
pub mod Isr
