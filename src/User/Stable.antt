-- ===== src/User/Stable.antt =====
-- The spawn call of kernel/src/user.rs against the place of the saved frames: the new process's
-- frame is at the top of its new kernel stack.
use mantra_os.Common.{ℕ, ◌≡◌, inl, inr, sym, subst, ◌==◌, Bool-cases, Option-cases, arith}
use mathlib.Core.Path.{subst₂}
use mantra_os.Common.Run.{done, Run-cases}
use mantra_os.Sched.{Sched, spawn_proc, cap_alloc_for}
use mantra_os.Sched.Stacks.{AtTop, Stable, cap_alloc_for-Stable, spawn_proc-Stable}
use mantra_os.Machine.{Kernel}
use mantra_os.Elf.{Elf}
use mantra_os.User.{Built, build_proc_from_init, shared_ep, enrol, spawn_init_from_syscall}
use mantra_os.User.First.{IsBuilt, build-IsBuilt}

-- The scheduler is stable in the address space that the processor is in.
abbrev pub IsStable : ℕ → Kernel → Type 0
IsStable top k = Stable k.heap.next k.cr3 top k.sched

pub moved :
    (top : ℕ) (k k' : Kernel) {s : Sched}
    → k'.heap.next ≡ k.heap.next
    → k'.cr3 ≡ k.cr3
    → k'.sched ≡ s
    → Stable k.heap.next k.cr3 top s
    → IsStable top k'
moved top k k' brk root e h =
    subst (λ n. Stable n k'.cr3 top k'.sched) (sym brk)
      (subst₂ (λ c s. Stable k.heap.next c top s) (sym root) (sym e) h)

enrol-Stable :
    (role top : ℕ) (b : Built) (ep : ℕ) (k0 k : Kernel)
    → IsStable top k0
    → IsBuilt role 0 k0 b k
    → IsStable top (enrol b ep k).1
unfolding enrol
enrol-Stable role top b ep k0 k h w =
    let out = enrol b ep k in
    let sp = spawn_proc b.tf_rsp b.kstack_top b.cr3 k.sched in
    let before : Stable k0.heap.next k.cr3 top k.sched =
      subst₂ (λ c s. Stable k0.heap.next c top s) (sym w.cr3) (sym w.sched) h in
    let own : AtTop b.kstack_top b.tf_rsp = omega (arith, w.top, w.high) in
    let hs : Stable k.heap.next k.cr3 top sp.1 =
      subst (λ n. Stable n k.cr3 top sp.1) (sym w.next)
        (spawn_proc-Stable k0.heap.next k.cr3 top b.tf_rsp b.kstack_top b.cr3 k.sched own w.stack
          before) in
    elim (Option-cases sp.0) [
      | inl full ↦ moved top k out.1 {s = sp.1} (ground arith) (ground arith) (ground arith) hs
      | inr (pid, found) ↦ elim (Bool-cases (ep == 0)) [
        | inl nothing ↦ moved top k out.1 {s = sp.1} (ground arith) (ground arith) (ground arith) hs
        | inr shared ↦
            moved top k out.1 {s = (cap_alloc_for pid ep sp.1).1} (ground arith) (ground arith)
              (ground arith) (cap_alloc_for-Stable k.heap.next k.cr3 top pid ep sp.1 hs)
      ]
    ]

pub spawn-Stable :
    (top : ℕ) (elf : Elf) (prog_id role share_cap r : ℕ) (k k' : Kernel)
    → IsStable top k
    → spawn_init_from_syscall elf prog_id role share_cap k ≡ done (r, k')
    → IsStable top k'
unfolding spawn_init_from_syscall
spawn-Stable top elf prog_id role share_cap r k k' h e = elim (Bool-cases (prog_id == 1)) [
  | inr other ↦ let same : k ≡ k' = ground arith in subst (IsStable top) same h
  | inl init_program ↦ elim (Run-cases (build_proc_from_init elf role 0 k)) [
    | inl failed ↦ absurd (ground arith)
    | inr ((built, k1), made) ↦
        let same : (enrol built (shared_ep share_cap k.sched) k1).1 ≡ k' = ground arith in
        subst (IsStable top) same (
          enrol-Stable role top built (shared_ep share_cap k.sched) k k1 h
            (build-IsBuilt elf role 0 k k1 built made))
  ]
]
