-- ===== src/Start.antt =====
-- kernel/src/main.rs: `_start`, from the boot loader's hand-over to the first process. What the
-- firmware and the linker place, and what the library formats and allocates, are parameters.
pub mod Same
pub mod Enters
mod Tests
use mantra_os.Common.{
  ℕ, zero, suc, ◌+◌, ◌-◌, ◌*◌, ◌/◌, ◌^◌, min, Bool, true, false, not, ◌&&◌, ◌||◌, ltb, ◌==◌,
  if◌then◌else◌, List, [], ◌∷◌, ◌++◌, length, Option, none, some,
}
use mantra_os.Common.Text.{codes}
use mantra_os.Common.Word.{saturating_add}
use mantra_os.Common.Run.{Run, done, panic, ◌>>=◌}
use mantra_os.Bootinfo.{BootInfo, magic, version, MemoryRegion, kind_code, RegionKind}
use mantra_os.Pmm.{PmmStats, alloc_frame}
use mantra_os.Pmm
use mantra_os.Heap.{Bump, alloc}
use mantra_os.Heap
use mantra_os.Sched.{set_rsp0}
use mantra_os.Memory.{Mem, read_u64}
use mantra_os.Serial.{write_dec_u64, write_hex_u64}
use mantra_os.Fb.{Rgb, PixelFormat, FrameBuffer, Console, clear, set_colors, put_pixel, write_str}
use mantra_os.Fb
use mantra_os.Paging.{Paging, kmap_smoke_test}
use mantra_os.Paging
use mantra_os.Tables.{Phys}
use mantra_os.Machine.{Kernel, BootRange, send_serial}
use mantra_os.Elf.{Elf}
use mantra_os.User.{enter_first_user}
use mantra_os.Arch.Gdt.{Statics, Segments, GdtState}
use mantra_os.Arch.Gdt
use mantra_os.Arch.Idt.{IdtEntry, Handlers, empty_idt, InterruptStackFrame, breakpoint_handler}
use mantra_os.Arch.Idt
use mantra_os.Arch.Ports.{Write, pic_init, pit_init}

-- The kernel with what only its start works on: the console, the processor's tables, the writes to
-- the ports of the devices, and whether interrupts are on.
pub record World : Type 0 where
  pub kernel : Kernel
  pub con : Console
  pub gdt : GdtState
  pub idt : List IdtEntry
  pub ports : List Write
  pub paging : Paging
  pub interrupts : Bool

-- How `_start` ends: in a loop of `hlt`, or in the first process, whose frame it returns to.
pub data Outcome : Type 0 where
  halted : World → Outcome
  entered : ℕ → World → Outcome

-- What the linker and the processor have placed.
pub record Placement : Type 0 where
  pub statics : Statics
  pub handlers : Handlers
  pub regs : Segments
  pub after_int3 : InterruptStackFrame

-- What the library does: the text of a number in a `{}` and in a `{:#x}` and of a format in a
-- `{:?}`, and the size and alignment of each allocation that the test of the heap asks for.
pub record Library : Type 0 where
  pub display : ℕ → List ℕ
  pub alternate_hex : ℕ → List ℕ
  pub debug : PixelFormat → List ℕ
  pub asks : List (ℕ × ℕ)

abbrev pub log : List ℕ → World → World
log bytes w = record w { kernel = send_serial bytes w.kernel }

-- `arch::init`, less the log of its parts.
pub arch_init : Placement → World → World
arch_init at w =
    let gdt = Gdt.init at.statics w.gdt.tss at.regs in
    record w {
      gdt = gdt;
      kernel = record w.kernel { sched = set_rsp0 gdt.tss.rsp0 w.kernel.sched };
      idt = Idt.init gdt.regs.cs at.handlers w.idt;
      ports = w.ports ++ pic_init ++ pit_init 100;
    }

-- A little-endian u32.
abbrev pub read_u32 : Mem → ℕ → ℕ
read_u32 m p = m p + 2 ^ 8 * m (p + 1) + 2 ^ 16 * m (p + 2) + 2 ^ 24 * m (p + 3)

-- The slice of `n` entries of 24 bytes at `p`.
pub regions_at : Mem → ℕ → ℕ → List MemoryRegion
regions_at m p zero = []
regions_at m p (suc n) =
    record { base = read_u64 m p; len = read_u64 m (p + 8); kind = read_u32 m (p + 16) }
    ∷ regions_at m (p + 24) n

pub regions_of : BootInfo → Mem → List MemoryRegion
unfolding regions_at
regions_of bi m =
    if not (bi.regions_ptr == 0) && not (bi.regions_len == 0)
    then regions_at m bi.regions_ptr bi.regions_len
    else []

-- The loop that counts into `usable_cnt`.
pub count_usable : ℕ → List MemoryRegion → ℕ
count_usable cnt [] = cnt
count_usable cnt (r ∷ rs) =
    count_usable (if r.kind == kind_code RegionKind.usable then cnt + 1 else cnt) rs

pub format_of : ℕ → PixelFormat
format_of x =
    if x == 1 then PixelFormat.rgb else if x == 2 then PixelFormat.bgr else PixelFormat.unknown

abbrev pub dark : Rgb
dark = record { r = 0x08; g = 0x0b; b = 0x10 }

abbrev pub light : Rgb
light = record { r = 0xe8; g = 0xef; b = 0xff }

abbrev pub green : Rgb
green = record { r = 0x5a; g = 0xff; b = 0x86 }

-- `writeln!` to the console, whose `write_str` always succeeds.
pub print : List ℕ → World → Run World
print line w = write_str (line ++ codes "\n") w.con w.kernel.mem >>= λ (con, m).
    done (record w { con = con; kernel = record w.kernel { mem = m } })

pub print_all : List (List ℕ) → World → Run World
unfolding print
print_all [] w = done w
print_all (line ∷ lines) w = print line w >>= print_all lines

abbrev pub frame_buffer : BootInfo → FrameBuffer
frame_buffer bi = record {
  base = bi.fb_base;
  size = bi.fb_size;
  width = bi.fb_width;
  height = bi.fb_height;
  stride = bi.fb_stride;
  format = format_of bi.fb_format;
}

-- The new console, cleared and in its colours.
pub open_console : BootInfo → World → Run World
open_console bi w = clear dark (Fb.new (frame_buffer bi)) w.kernel.mem >>= λ (con, m).
    done (record w { con = set_colors light dark con; kernel = record w.kernel { mem = m } })

pub max_phys : BootInfo → ℕ
max_phys bi =
    let fb_end = saturating_add bi.fb_base bi.fb_size in
    let end = if ltb bi.kernel_phys_end fb_end then fb_end else bi.kernel_phys_end in
    saturating_add end (512 * 1024 * 1024)

-- `arch::init_paging`: a root that `init` has built is loaded into CR3.
pub start_paging : ℕ → World → Run World
start_paging max w =
    elim (Paging.init max w.paging (record { pmm = w.kernel.pmm; mem = w.kernel.mem })) [
      | panic ↦ panic
      | done (p, st) ↦
          let root = if p.pml4_phys == 0 then w.kernel.cr3 else p.pml4_phys in
          done (record w {
            paging = p;
            kernel = record w.kernel { pmm = st.pmm; mem = st.mem; cr3 = root };
          })
    ]

pub start_heap : World → Run World
start_heap w = Heap.init w.kernel.heap w.kernel.pmm >>= λ (heap, pmm).
    done (record w { kernel = record w.kernel { heap = heap; pmm = pmm } })

pub test_kmap : World → Run World
test_kmap w = elim (kmap_smoke_test w.paging (record { pmm = w.kernel.pmm; mem = w.kernel.mem })) [
  | panic ↦ panic
  | done ((p, bytes), st) ↦
      done (
        log bytes
          (record w { paging = p; kernel = record w.kernel { pmm = st.pmm; mem = st.mem } }))
]

-- The allocations of the test of the heap; one that fails ends in `oom`.
pub ask_all : List (ℕ × ℕ) → Bump → Run (Option Bump)
ask_all [] heap = done (some heap)
ask_all ((size, align) ∷ asks) heap = alloc size align heap >>= λ (p, heap'). elim p [
  | none ↦ done none
  | some base ↦ ask_all asks heap'
]

-- The loop that draws the diagonal, with `n` pixels left from `i` on.
pub draw_diagonal : ℕ → ℕ → FrameBuffer → Mem → Run Mem
draw_diagonal zero i fb m = done m
draw_diagonal (suc n) i fb m = put_pixel fb i i green m >>= draw_diagonal n (i + 1) fb

module _ (lib : Library) (elf : Elf) (at : Placement) where
  -- The loop that takes frames, with `left` rounds left from number `n` on.
  pub take_frames : ℕ → ℕ → World → Run World
  unfolding print
  take_frames zero n w = done w
  take_frames (suc left) n w =
      let (frame, pmm) = alloc_frame w.kernel.pmm in
      let w' : World = record w { kernel = record w.kernel { pmm = pmm } } in
      elim frame [
        | some p ↦
            print (codes "Frame" ++ lib.display n ++ codes " " ++ lib.alternate_hex p)
              (log (codes "mantracore: alloc_frame ok " ++ write_hex_u64 p ++ codes "\n") w')
            >>= take_frames left (n + 1)
        | none ↦
            print (codes "Frame" ++ lib.display n ++ codes " FAIL")
              (log (codes "mantracore: alloc_frame failed\n") w')
            >>= take_frames left (n + 1)
      ]

  -- After the test of the heap: its allocator, or none if it ran out.
  pub first_process : BootInfo → Option Bump → World → Run Outcome
  first_process bi none w = done (halted (log (codes "OOM\n") w))
  first_process bi (some heap) w =
      let tested : World =
        log
          (codes "heap: vec_len="
            ++ write_dec_u64 16
            ++ codes " box="
            ++ write_hex_u64 0xdead_beef
            ++ codes "\n")
          (record w { kernel = record w.kernel { heap = heap } }) in
      let range : BootRange = record {
        kernel_base = bi.kernel_phys_base;
        kernel_end = bi.kernel_phys_end;
        max_phys = max_phys bi;
      } in
      enter_first_user elf range tested.kernel >>= λ (tf, k).
      done (entered tf (record tested { kernel = k }))

  -- The arm for a memory manager that is ready.
  pub with_memory : BootInfo → PmmStats → World → Run Outcome
  unfolding take_frames start_paging start_heap test_kmap ask_all first_process
  with_memory bi stats w = do
    told ←
        print
          (codes "PMM usable="
            ++ lib.display (stats.usable_bytes / (1024 * 1024))
            ++ codes "MiB free="
            ++ lib.display (stats.free_bytes / (1024 * 1024))
            ++ codes "MiB ranges="
            ++ lib.display stats.range_count)
          (log (codes "mantracore: pmm initialized\n") w)
    framed ← take_frames 3 0 told
    paged ← start_paging (max_phys bi) framed
    heaped ← start_heap paged
    mapped ← test_kmap heaped
    heap ← ask_all lib.asks mapped.kernel.heap
    first_process bi heap mapped

  -- The end of `_start`: interrupts on, a breakpoint, the diagonal.
  pub idle : World → Run Outcome
  unfolding draw_diagonal
  idle w =
      let on : World =
        log (codes "mantracore: interrupts enabled\n") (record w { interrupts = true }) in
      let back : World = log (breakpoint_handler at.after_int3).0 on in
      draw_diagonal (min back.con.fb.width back.con.fb.height) 0 back.con.fb back.kernel.mem
      >>= λ m. done (halted (record back { kernel = record back.kernel { mem = m } }))

  -- The lines of the banner, each of which is one `writeln!`.
  pub banner : BootInfo → ℕ → List (List ℕ)
  banner bi regions =
      codes "MantraOS"
      ∷ (codes "BootInfo v" ++ lib.display bi.version ++ codes " OK")
      ∷ (codes "Regions: " ++ lib.display regions)
      ∷ (codes "FB "
          ++ lib.display bi.fb_width
          ++ codes "x"
          ++ lib.display bi.fb_height
          ++ codes " stride="
          ++ lib.display bi.fb_stride
          ++ codes " fmt="
          ++ lib.debug (format_of bi.fb_format))
      ∷ (codes "FB base="
          ++ lib.alternate_hex bi.fb_base
          ++ codes " size="
          ++ lib.alternate_hex bi.fb_size)
      ∷ (codes "Kernel "
          ++ lib.alternate_hex bi.kernel_phys_base
          ++ codes "-"
          ++ lib.alternate_hex bi.kernel_phys_end)
      ∷ []

  -- From the memory map on.
  pub with_regions : BootInfo → List MemoryRegion → World → Run Outcome
  unfolding open_console print_all banner with_memory idle count_usable
  with_regions bi regions w =
      let counted : World =
        log
          (codes "mantracore: regions="
            ++ write_dec_u64 (length regions)
            ++ codes " usable="
            ++ write_dec_u64 (count_usable 0 regions)
            ++ codes "\n")
          w in
      open_console bi counted >>= print_all (banner bi (length regions)) >>= λ shown.
      (let drawn : World = log (codes "mantracore: framebuffer initialized\n") shown in
        Pmm.init regions >>= λ o. elim o [
          | none ↦
              print (codes "PMM init failed") (log (codes "mantracore: pmm init failed\n") drawn)
              >>= idle
          | some (pmm, stats) ↦
              with_memory bi stats
                (record drawn { kernel = record drawn.kernel { pmm = some pmm } })
        ])

  -- `_start`, where `bi` is what the pointer to the boot information leads to, if it is not null.
  pub start : Option BootInfo → World → Run Outcome
  unfolding arch_init regions_of with_regions
  start bi w =
      let here : World = log (codes "mantracore: entered kernel\n") w in
      let ready : World = arch_init at (record here { interrupts = false }) in
      elim bi [
        | none ↦ done (halted (log (codes "mantracore: boot_info null\n") ready))
        | some b ↦
            if not (b.magic == magic) || not (b.version == version)
            then done (halted (log (codes "mantracore: boot_info magic/version mismatch\n") ready))
            else with_regions b (regions_of b ready.kernel.mem) ready
      ]
