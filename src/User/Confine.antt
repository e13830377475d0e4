-- ===== src/User/Confine.antt =====
-- The spawn call of kernel/src/user.rs, against the bound on the endpoints that capabilities name.
use mantra_os.Common.{
  ℕ, ◌≤◌, ◌≡◌, inl, inr, refl, sym, subst, ◌∙◌, ◌==◌, Bool-cases, Option-cases, arith,
}
use mantra_os.Common.Run.{done, Run-cases}
use mantra_os.Sched.{Sched, spawn_proc, cap_lookup_current, cap_alloc_for}
use mantra_os.Sched.Confine.{SchedUpTo, cap_alloc_for-UpTo, cap_lookup-UpTo}
use mantra_os.Sched.Spawn.{spawn_proc-UpTo}
use mantra_os.Machine.{Kernel}
use mantra_os.Elf.{Elf}
use mantra_os.User.{
  Built, address_space, kstack_alloc_top, build_initial_tf, build_stack, build_proc_from_init,
  shared_ep, enrol, spawn_init_from_syscall,
}

-- The processes keep the bound, and the endpoints are as they were.
abbrev pub Keeps : ℕ → Kernel → Kernel → Type 0
Keeps b k k' = SchedUpTo b k'.sched × (k'.ipc ≡ k.ipc)

shared_ep-UpTo : (b share_cap : ℕ) (s : Sched) → SchedUpTo b s → shared_ep share_cap s ≤ b
unfolding shared_ep
shared_ep-UpTo b share_cap s h = elim (Option-cases (cap_lookup_current share_cap s)) [
  | inl bad ↦ ground arith
  | inr (ep, named) ↦ let bound : ep ≤ b = cap_lookup-UpTo b share_cap ep s h named in ground arith
]

enrol-Keeps :
    (b : ℕ) (built : Built) (ep : ℕ) (k : Kernel)
    → ep ≤ b
    → SchedUpTo b k.sched
    → Keeps b k (enrol built ep k).1
unfolding enrol
enrol-Keeps b built ep k le h =
    let out = enrol built ep k in
    let sp = spawn_proc built.tf_rsp built.kstack_top built.cr3 k.sched in
    let hs : SchedUpTo b sp.1 =
      spawn_proc-UpTo b built.tf_rsp built.kstack_top built.cr3 k.sched h in
    elim (Option-cases sp.0) [
      | inl full ↦
          let es : out.1.sched ≡ sp.1 = ground arith in
          (subst (SchedUpTo b) (sym es) hs, ground arith)
      | inr (pid, found) ↦ elim (Bool-cases (ep == 0)) [
        | inl nothing ↦
            let es : out.1.sched ≡ sp.1 = ground arith in
            (subst (SchedUpTo b) (sym es) hs, ground arith)
        | inr shared ↦
            let es : out.1.sched ≡ (cap_alloc_for pid ep sp.1).1 = ground arith in
            (subst (SchedUpTo b) (sym es) (cap_alloc_for-UpTo b pid ep sp.1 le hs), ground arith)
      ]
    ]

build_stack-keeps :
    (pml4 entry role cap : ℕ) (k k' : Kernel) (built : Built)
    → build_stack pml4 entry role cap k ≡ done (built, k')
    → (k'.sched ≡ k.sched) × (k'.ipc ≡ k.ipc)
unfolding build_stack build_initial_tf
build_stack-keeps pml4 entry role cap k k' built e = elim (Run-cases (kstack_alloc_top k.heap)) [
  | inl none_left ↦ absurd (ground arith)
  | inr ((top, heap), got) ↦ (ground arith, ground arith)
]

build-keeps :
    (elf : Elf) (role cap : ℕ) (k k' : Kernel) (built : Built)
    → build_proc_from_init elf role cap k ≡ done (built, k')
    → (k'.sched ≡ k.sched) × (k'.ipc ≡ k.ipc)
unfolding build_proc_from_init
build-keeps elf role cap k k' built e =
    elim (Run-cases (address_space elf k.range (record { pmm = k.pmm; mem = k.mem }))) [
      | inl failed ↦ absurd (ground arith)
      | inr (((pml4, entry), st), made) ↦
          build_stack-keeps pml4 entry role cap (record k { pmm = st.pmm; mem = st.mem }) k' built
            (ground arith)
    ]

pub spawn-Keeps :
    (b : ℕ) (elf : Elf) (prog_id role share_cap r : ℕ) (k k' : Kernel)
    → SchedUpTo b k.sched
    → spawn_init_from_syscall elf prog_id role share_cap k ≡ done (r, k')
    → Keeps b k k'
unfolding spawn_init_from_syscall
spawn-Keeps b elf prog_id role share_cap r k k' h e = elim (Bool-cases (prog_id == 1)) [
  | inr other ↦ let same : k ≡ k' = ground arith in subst (Keeps b k) same (h, refl)
  | inl init_program ↦ elim (Run-cases (build_proc_from_init elf role 0 k)) [
    | inl failed ↦ absurd (ground arith)
    | inr ((built, k1), made) ↦
        let kept = build-keeps elf role 0 k k1 built made in
        let same : (enrol built (shared_ep share_cap k.sched) k1).1 ≡ k' = ground arith in
        let w : Keeps b k1 (enrol built (shared_ep share_cap k.sched) k1).1 =
          enrol-Keeps b built (shared_ep share_cap k.sched) k1
            (shared_ep-UpTo b share_cap k.sched h) (subst (SchedUpTo b) (sym kept.0) h) in
        subst (Keeps b k) same (w.0, w.1 ∙ kept.1)
  ]
]
