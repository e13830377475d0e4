-- ===== src/User.antt =====
-- kernel/src/user.rs: a new process, from the address space and the kernel stack to the first trap
-- frame; the spawn call; and the start of the first process.
pub mod Confine
pub mod Fuel
pub mod First
pub mod Stable
use mantra_os.Common.{
  ℕ, zero, suc, ◌+◌, ◌-◌, ◌*◌, ◌/◌, Bool, true, false, not, ◌||◌, ltb, ◌==◌, if◌then◌else◌, List,
  [], ◌∷◌, Option, none, some,
}
use mantra_os.Common.Bits.{bit_or}
use mantra_os.Common.Word.{u64_max}
use mantra_os.Common.Run.{Run, done, panic, checked_add}
use mantra_os.Pmm.{alloc_frame}
use mantra_os.Pmm.Align.{align_up, align_down}
use mantra_os.Heap.{Bump, alloc}
use mantra_os.Sched.{Sched, spawn_proc, cap_alloc_for, cap_lookup_current, install_first, set_rsp0}
use mantra_os.Memory.{write_byte, pte_rw, pte_u}
use mantra_os.Tables.{
  Phys, Build, ◌>>=◌, ◌>>◌, pure, lift, expect, alloc_table, map_4k, map_hhdm_huge,
}
use mantra_os.Elf.{Elf}
use mantra_os.Arch.Gdt.{ucode_sel, udata_sel}
use mantra_os.Loader.{load_elf_into_user}
use mantra_os.Machine.{Frame, Kernel, BootRange, set_frame, set_rsi}

-- The loop that maps the kernel's pages from `p` up to `ke` onto themselves, with fuel.
pub map_kernel : ℕ → ℕ → ℕ → ℕ → Build (Unit {0})
map_kernel zero pml4 p ke st = done (tt, st)
map_kernel (suc fuel) pml4 p ke st = elim (ltb p ke) [
  | false ↦ done (tt, st)
  | true ↦
      (map_4k pml4 p p pte_rw >>= λ _.
      lift (checked_add p 4096) >>= λ p'. map_kernel fuel pml4 p' ke)
        st
]

abbrev pub user_stack_top : ℕ
user_stack_top = 0x2000_0000

abbrev pub stack_pages : ℕ
stack_pages = 4

-- The loop over the pages of the user stack, with `n` left from number `i` on.
pub map_stack : ℕ → ℕ → ℕ → Build (Unit {0})
map_stack zero i pml4 = pure tt
map_stack (suc n) i pml4 = do
  sp ← expect alloc_frame
  map_4k pml4 (user_stack_top - stack_pages * 4096 + i * 4096) sp (bit_or pte_u pte_rw)
  map_stack n (i + 1) pml4

abbrev pub user_code_v : ℕ
user_code_v = 0x1000_0000

-- Consecutive bytes of physical memory.
pub write_bytes : ℕ → List ℕ → Build (Unit {0})
write_bytes p [] st = done (tt, st)
write_bytes p (b ∷ bytes) st = write_bytes (p + 1) bytes (record st { mem = write_byte st.mem p b })

-- Without a program: `int 0x80; jmp $`.
pub map_stub : ℕ → Build ℕ
unfolding write_bytes
map_stub pml4 = do
  code_p ← expect alloc_frame
  map_4k pml4 user_code_v code_p pte_u
  write_bytes code_p (0xcd ∷ 0x80 ∷ 0xeb ∷ 0xfe ∷ [])
  pure user_code_v

-- `expect` on the loader's answer.
abbrev pub loaded : Option ℕ → Build ℕ
loaded none st = panic
loaded (some entry) st = done (entry, st)

pub map_code : ℕ → Elf → Build ℕ
unfolding map_stub
map_code pml4 [] = map_stub pml4
map_code pml4 (b ∷ elf) = load_elf_into_user pml4 (b ∷ elf) >>= loaded

-- The part of `build_proc_from_init` that works on memory: the root table and the entry point.
pub address_space : Elf → BootRange → Build (ℕ × ℕ)
unfolding map_kernel map_stack map_code
address_space elf range st =
    if range.kernel_base == 0 || range.kernel_end == 0 || range.max_phys == 0
    then panic
    else (do
      pml4 ← alloc_table
      let kb = align_down range.kernel_base 4096
      ke ← lift (align_up range.kernel_end 4096)
      map_kernel ((ke - kb) / 4096) pml4 kb ke
      map_hhdm_huge pml4 range.max_phys
      map_stack stack_pages 0 pml4
      entry ← map_code pml4 elf
      pure (pml4, entry))
        st

abbrev pub kstack_size : ℕ
kstack_size = 16 * 1024

-- `kstack_alloc_top`: an allocation that fails ends in the handler for it, which halts.
pub kstack_alloc_top : Bump → Run (ℕ × Bump)
kstack_alloc_top heap = elim (alloc kstack_size 1 heap) [
  | panic ↦ panic
  | done (none, heap') ↦ panic
  | done (some base, heap') ↦ elim (checked_add base kstack_size) [
    | panic ↦ panic
    | done top ↦ done (top, heap')
  ]
]

-- The size of a trap frame.
abbrev pub frame_size : ℕ
frame_size = 20 * 8

abbrev pub initial_frame : ℕ → ℕ → ℕ → ℕ → Frame
initial_frame entry user_rsp role init_ep_cap = record {
  r15 = 0;
  r14 = 0;
  r13 = 0;
  r12 = 0;
  r11 = 0;
  r10 = 0;
  r9 = 0;
  r8 = 0;
  rsi = init_ep_cap;
  rdi = role;
  rbp = 0;
  rdx = 0;
  rcx = 0;
  rbx = 0;
  rax = 0;
  rip = entry;
  cs = bit_or ucode_sel 3;
  rflags = 0x202;
  rsp = user_rsp;
  ss = bit_or udata_sel 3;
}

-- `build_initial_tf`, whose answer is the frame's address.
pub build_initial_tf : ℕ → ℕ → ℕ → ℕ → ℕ → Kernel → Run (ℕ × Kernel)
build_initial_tf kstack_top entry user_rsp role init_ep_cap k =
    if ltb kstack_top frame_size
    then panic
    else done (
      kstack_top - frame_size,
      set_frame (kstack_top - frame_size) (initial_frame entry user_rsp role init_ep_cap) k,
    )

-- What `build_proc_from_init` returns.
pub record Built : Type 0 where
  pub tf_rsp : ℕ
  pub kstack_top : ℕ
  pub cr3 : ℕ
  pub entry : ℕ

-- The part of `build_proc_from_init` after the address space.
pub build_stack : ℕ → ℕ → ℕ → ℕ → Kernel → Run (Built × Kernel)
unfolding kstack_alloc_top build_initial_tf
build_stack pml4 entry role init_ep_cap k = elim (kstack_alloc_top k.heap) [
  | panic ↦ panic
  | done (top, heap) ↦
      elim (build_initial_tf top entry (user_stack_top - 8) role init_ep_cap
        (record k { heap = heap })) [
          | panic ↦ panic
          | done (tf, k') ↦
              done (record { tf_rsp = tf; kstack_top = top; cr3 = pml4; entry = entry }, k')
        ]
]

pub build_proc_from_init : Elf → ℕ → ℕ → Kernel → Run (Built × Kernel)
unfolding address_space build_stack
build_proc_from_init elf role init_ep_cap k =
    elim (address_space elf k.range (record { pmm = k.pmm; mem = k.mem })) [
      | panic ↦ panic
      | done ((pml4, entry), st) ↦
          build_stack pml4 entry role init_ep_cap (record k { pmm = st.pmm; mem = st.mem })
    ]

abbrev pub or_zero : Option ℕ → ℕ
or_zero none = 0
or_zero (some v) = v

-- The endpoint to share with the child, or 0.
pub shared_ep : ℕ → Sched → ℕ
shared_ep share_cap s = if not (share_cap == 0) then or_zero (cap_lookup_current share_cap s) else 0

-- `spawn_init_from_syscall` from the built process on.
pub enrol : Built → ℕ → Kernel → ℕ × Kernel
enrol b ep_id k =
    let (slot, s) = spawn_proc b.tf_rsp b.kstack_top b.cr3 k.sched in
    elim slot [
      | none ↦ (u64_max, record k { sched = s })
      | some pid ↦
          let (cap, s') = if not (ep_id == 0) then cap_alloc_for pid ep_id s else (none, s) in
          (pid, set_rsi b.tf_rsp (or_zero cap) (record k { sched = s' }))
    ]

pub spawn_init_from_syscall : Elf → ℕ → ℕ → ℕ → Kernel → Run (ℕ × Kernel)
unfolding enrol shared_ep
spawn_init_from_syscall elf prog_id role share_cap k =
    if not (prog_id == 1) then done (u64_max, k) else elim (build_proc_from_init elf role 0 k) [
      | panic ↦ panic
      | done (b, k') ↦ done (enrol b (shared_ep share_cap k.sched) k')
    ]

-- `enter_first_user`, less its serial log: the frame that the processor goes on with. The kernel has
-- then loaded the process's address space.
pub enter_first_user : Elf → BootRange → Kernel → Run (ℕ × Kernel)
enter_first_user elf range k = elim (build_proc_from_init elf 0 0 (record k { range = range })) [
  | panic ↦ panic
  | done (b, k') ↦ done (
    b.tf_rsp,
    record k' {
      sched = set_rsp0 b.kstack_top (install_first b.tf_rsp b.kstack_top b.cr3 k'.sched);
      cr3 = b.cr3;
    },
  )
]
