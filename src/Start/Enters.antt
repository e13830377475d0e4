-- ===== src/Start/Enters.antt =====
-- Every way that `_start` of kernel/src/main.rs can end.
use mantra_os.Common.{
  arith, ℕ, min, ◌+◌, ◌-◌, ◌*◌, ◌/◌, ◌≡◌, inl, inr, refl, sym, ap, subst, ◌∙◌, not, ◌||◌, ◌==◌,
  true, false, Bool-cases, List, ◌++◌, Option, none, some, length,
}
use mantra_os.Common.Text.{codes}
use mantra_os.Common.Run.{◌>>=◌, Run-cases}
use mantra_os.Bootinfo.{BootInfo, magic, version, MemoryRegion}
use mantra_os.Pmm.{PmmStats, alloc_frame}
use mantra_os.Pmm
use mantra_os.Heap.{Bump}
use mantra_os.Sched.{Sched, set_rsp0, proc_at, install_first}
use mantra_os.Sched.Stacks.{AtTop, Stable, install_first-Stable, install_first-frame}
use mantra_os.Ipc.{Ipc, boot}
use mantra_os.Ipc.Confine.{Confined, install_first-Confined, set_rsp0-Confined}
use mantra_os.Serial.{write_dec_u64, write_hex_u64}
use mantra_os.Machine.{Kernel, BootRange}
use mantra_os.Elf.{Elf}
use mantra_os.User.{enter_first_user, frame_size, user_stack_top}
use mantra_os.User.First.{IsFirst, enter_first_user-IsFirst}
use mantra_os.Isr.Running.{Running}
use mantra_os.Arch.Idt.{breakpoint_handler}
use mantra_os.Arch.Gdt.{Statics, GdtState, int_stack_size}
use mantra_os.Arch.Gdt
use mantra_os.Arch.Rings.{EntersUser, initial_frame-EntersUser}
use mantra_os.Start.{
  World, Outcome, halted, entered, Placement, Library, log, arch_init, regions_of, print,
  open_console, max_phys, start_paging, start_heap, test_kmap, ask_all, draw_diagonal, take_frames,
  first_process, with_memory, idle, print_all, count_usable, banner, with_regions, start,
}
use mantra_os.Start.Same.{
  After, bind-After, Same, same, keep, print-Same, open_console-Same, start_paging-Same,
  start_heap-Same, test_kmap-Same, print_all-Same, take_frames-Same,
}

-- What the processes see when the first one starts.
pub record Enters (tf : ℕ) (w : World) : Type 0 where
  pub running : Running tf w.kernel
  pub saved : (proc_at w.kernel.sched w.kernel.sched.current).tf_rsp ≡ tf
  pub confined : Confined w.kernel.sched w.kernel.ipc
  pub user : EntersUser w.gdt.table (w.kernel.frames tf)
  pub quiet : w.interrupts ≡ false

-- What holds at each end of the start: where the kernel stops, no process and no endpoint has
-- changed; else the first process is entered.
pub Ends : Sched → Ipc → Outcome → Type 0
Ends s i (halted w) = (w.kernel.sched ≡ s) × (w.kernel.ipc ≡ i)
Ends s i (entered tf w) = Enters tf w

module _ (lib : Library) (elf : Elf) (at : Placement) where
  -- The kernel when the processor's tables are loaded: no endpoint, interrupts off.
  record Ready (w : World) : Type 0 where
    no_endpoint : w.kernel.ipc ≡ boot
    off : w.interrupts ≡ false
    tss : Gdt.Tss
    tables : w.gdt ≡ Gdt.init at.statics tss at.regs

  Enters-from :
      (w0 w : World) (tf : ℕ) (k' : Kernel)
      → Ready w0
      → Same w0 w
      → IsFirst tf w.kernel k'
      → Enters tf (record w { kernel = k' })
  Enters-from w0 w tf k' r s first =
      let installed : Sched = install_first tf (tf + frame_size) k'.cr3 w.kernel.sched in
      let now : Sched = set_rsp0 (tf + frame_size) installed in
      let ipc : k'.ipc ≡ boot = first.ipc ∙ s.ipc ∙ r.no_endpoint in
      let stable : Stable k'.heap.next k'.cr3 now.rsp0 now =
        subst (λ n. Stable n k'.cr3 now.rsp0 now) (sym first.next)
          (install_first-Stable tf k'.cr3 w.kernel.sched first.high) in
      record {
        running = record {
          stable = subst (λ q. Stable k'.heap.next k'.cr3 q.rsp0 q) (sym first.sched) stable;
          frame =
              subst (λ q. AtTop q.rsp0 tf) (sym first.sched) (omega arith, omega arith, first.high);
        };
        saved =
            ap (λ q. (proc_at q q.current).tf_rsp) first.sched
            ∙ install_first-frame tf (tf + frame_size) k'.cr3 w.kernel.sched;
        confined =
            subst (λ q. Confined q k'.ipc) (sym first.sched)
              (subst (Confined now) (sym ipc) (
                set_rsp0-Confined (tf + frame_size) installed boot
                  (install_first-Confined tf (tf + frame_size) k'.cr3 w.kernel.sched)));
        user =
            subst (λ g. EntersUser g.table (k'.frames tf)) (sym (s.gdt ∙ r.tables))
              (subst (EntersUser (Gdt.init at.statics r.tss at.regs).table) (sym first.frame) (
                initial_frame-EntersUser first.entry (user_stack_top - 8) 0 0 at.statics r.tss
                  at.regs));
        quiet = s.interrupts ∙ r.off;
      }

  first_process-Ends :
      (w0 w : World) (bi : BootInfo) (heap : Option Bump)
      → Ready w0
      → Same w0 w
      → After (Ends w0.kernel.sched w0.kernel.ipc) (first_process lib elf at bi heap w)
  unfolding first_process Ends
  first_process-Ends w0 w bi none r s = (s.sched, s.ipc)
  first_process-Ends w0 w bi (some heap) r s =
      let told : World =
        log
          (codes "heap: vec_len="
            ++ write_dec_u64 16
            ++ codes " box="
            ++ write_hex_u64 0xdead_beef
            ++ codes "\n")
          (record w { kernel = record w.kernel { heap = heap } }) in
      let range : BootRange = record {
        kernel_base = bi.kernel_phys_base;
        kernel_end = bi.kernel_phys_end;
        max_phys = max_phys bi;
      } in
      elim (Run-cases (enter_first_user elf range told.kernel)) [
        | inl failed ↦ rw (failed, After) tt
        | inr ((tf, k'), made) ↦
            rw (made, After)
              (Enters-from w0 told tf k' r (keep w0 w told refl refl refl refl s)
                (enter_first_user-IsFirst elf range tf told.kernel k' made))
      ]

  idle-Ends :
      (w0 w : World) → Same w0 w → After (Ends w0.kernel.sched w0.kernel.ipc) (idle lib elf at w)
  unfolding idle Ends
  idle-Ends w0 w s =
      let on : World =
        log (codes "mantracore: interrupts enabled\n") (record w { interrupts = true }) in
      let back : World = log (breakpoint_handler at.after_int3).0 on in
      elim (Run-cases
        (draw_diagonal (min back.con.fb.width back.con.fb.height) 0 back.con.fb back.kernel.mem)) [
          | inl failed ↦ rw (failed, After) tt
          | inr (m, made) ↦ rw (made, After) (s.sched, s.ipc)
        ]

  with_memory-Ends :
      (w0 w : World) (bi : BootInfo) (stats : PmmStats)
      → Ready w0
      → Same w0 w
      → After (Ends w0.kernel.sched w0.kernel.ipc) (with_memory lib elf at bi stats w)
  unfolding with_memory
  with_memory-Ends w0 w bi stats r s =
      let Q = Ends w0.kernel.sched w0.kernel.ipc in
      let P = Same w0 in
      let ready : World = log (codes "mantracore: pmm initialized\n") w in
      let line =
        codes "PMM usable="
        ++ lib.display (stats.usable_bytes / (1024 * 1024))
        ++ codes "MiB free="
        ++ lib.display (stats.free_bytes / (1024 * 1024))
        ++ codes "MiB ranges="
        ++ lib.display stats.range_count in
      let go_heap = λ (e : World).
        ask_all lib.asks e.kernel.heap >>= λ heap. first_process lib elf at bi heap e in
      let go_kmap = λ (d : World). test_kmap d >>= go_heap in
      let go_start = λ (c : World). start_heap c >>= go_kmap in
      let go_paging = λ (b : World). start_paging (max_phys bi) b >>= go_start in
      let go_frames = λ (a : World). take_frames lib elf at 3 0 a >>= go_paging in
      let heap_ends : (e : World) → P e → After Q (go_heap e) = λ e t.
        elim (Run-cases (ask_all lib.asks e.kernel.heap)) [
          | inl failed ↦ rw (failed, After) tt
          | inr (heap, asked) ↦ rw (asked, After) (first_process-Ends w0 e bi heap r t)
        ] in
      let kmap_ends = λ (d : World) (t : P d).
        bind-After P Q (test_kmap d) go_heap (test_kmap-Same w0 d t) heap_ends in
      let start_ends = λ (c : World) (t : P c).
        bind-After P Q (start_heap c) go_kmap (start_heap-Same w0 c t) kmap_ends in
      let paging_ends = λ (b : World) (t : P b).
        bind-After P Q (start_paging (max_phys bi) b) go_start
          (start_paging-Same w0 b (max_phys bi) t) start_ends in
      let frames_end = λ (a : World) (t : P a).
        bind-After P Q (take_frames lib elf at 3 0 a) go_paging
          (take_frames-Same lib elf at 3 0 w0 a t) paging_ends in
      bind-After P Q (print line ready) go_frames
        (print-Same w0 ready line (keep w0 w ready refl refl refl refl s)) frames_end

  with_regions-Ends :
      (w : World) (bi : BootInfo) (regions : List MemoryRegion)
      → Ready w
      → After (Ends w.kernel.sched w.kernel.ipc) (with_regions lib elf at bi regions w)
  unfolding with_regions
  with_regions-Ends w bi regions r =
      let Q = Ends w.kernel.sched w.kernel.ipc in
      let P = Same w in
      let counted : World =
        log
          (codes "mantracore: regions="
            ++ write_dec_u64 (length regions)
            ++ codes " usable="
            ++ write_dec_u64 (count_usable 0 regions)
            ++ codes "\n")
          w in
      elim (Run-cases
        (open_console bi counted >>= print_all (banner lib elf at bi (length regions)))) [
          | inl failed ↦ rw (failed, After) tt
          | inr (shown, made) ↦
              let lines = banner lib elf at bi (length regions) in
              let s : P shown = subst (After P) made (
                bind-After P P (open_console bi counted) (print_all lines)
                  (open_console-Same w counted bi (keep w w counted refl refl refl refl (same w)))
                  (λ a t. print_all-Same w a lines t)) in
              let drawn : World = log (codes "mantracore: framebuffer initialized\n") shown in
              elim (Run-cases (Pmm.init regions)) [
                | inl failed ↦ rw (made, failed, After) tt
                | inr (none, refused) ↦
                    let failed : World = log (codes "mantracore: pmm init failed\n") drawn in
                    rw (made, refused, After)
                      (bind-After P Q (print (codes "PMM init failed") failed) (idle lib elf at)
                        (print-Same w failed (codes "PMM init failed")
                          (keep w shown failed refl refl refl refl s))
                        (λ a t. idle-Ends w a t))
                | inr (some (pmm, stats), served) ↦
                    rw (made, served, After)
                      (with_memory-Ends w
                        (record drawn { kernel = record drawn.kernel { pmm = some pmm } }) bi stats
                        r (keep w shown _ refl refl refl refl s))
              ]
        ]

  -- From a kernel without endpoints, for any boot information or none, any memory and any answers of
  -- the library: when the start does not panic, it either stops with the process table as it was,
  -- but for the stack of traps, and with no endpoint; or it goes on with the frame of the first
  -- process. Then that process is the current one, in its address space and with its kernel stack
  -- set for traps, `iretq` takes its frame to ring 3 by the descriptors in force, interrupts are off,
  -- and the capabilities and messages are confined to the endpoints that have been created.
  pub start-Ends :
      (bi : Option BootInfo) (w : World)
      → w.kernel.ipc ≡ boot
      → After
          (Ends (set_rsp0 (at.statics.kernel_int_stack0 + int_stack_size) w.kernel.sched) boot)
          (start lib elf at bi w)
  unfolding start arch_init Ends Gdt.init
  start-Ends none w fresh = (refl, fresh)
  start-Ends (some b) w fresh =
      let here : World = log (codes "mantracore: entered kernel\n") w in
      let ready : World = arch_init at (record here { interrupts = false }) in
      let is_ready : Ready ready = record {
        no_endpoint = fresh;
        off = refl;
        tss = w.gdt.tss;
        tables = refl;
      } in
      let regions = regions_of b ready.kernel.mem in
      elim (Bool-cases (not (b.magic == magic) || not (b.version == version))) [
        | inl other ↦ rw (other, After) (refl, fresh)
        | inr known ↦
            rw (known, After)
              (subst
                (λ i. After (Ends ready.kernel.sched i) (with_regions lib elf at b regions ready))
                fresh (with_regions-Ends ready b regions is_ready))
      ]
