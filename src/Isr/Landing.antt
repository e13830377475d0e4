-- ===== src/Isr/Landing.antt =====
-- The receives of kernel/src/arch/x86_64/isr.rs against the place of the saved frames.
use mantra_os.Common.{
  ℕ, ◌-◌, min, ◌≡◌, inl, inr, refl, sym, subst, ◌==◌, Bool-cases, Option-cases, arith,
}
use mantra_os.Common.Word.{u64_max}
use mantra_os.Sched.{
  Sched, current_pid, cap_lookup_current, block_current_on_ep, has_other_runnable,
  yield_from_syscall,
}
use mantra_os.Sched.Stacks.{AtTop, block-Stable}
use mantra_os.Sched.Resume.{Resumes, yield-Resumes}
use mantra_os.Ipc.{Ipc, waiter_push, ep_recv, ep_recv_cap}
use mantra_os.Memory.{copy_out}
use mantra_os.Machine.{Kernel, set_rax, set_rax_rdx, u32}
use mantra_os.User.Stable.{IsStable, moved}
use mantra_os.Isr.{wait_or, recv_call, recv_transfer, recv_cap_call}
use mantra_os.Isr.Stable.{recv_transfer-Stable}

-- What a handler answers, against the frame of the trap.
abbrev pub Lands : ℕ → ℕ → ℕ × Kernel → Type 0
Lands top tf (r, k) = Resumes k.heap.next k.cr3 top tf (r, k.sched)

-- The process that made the trap goes on.
pub stays : (top tf : ℕ) (k : Kernel) → AtTop top tf → IsStable top k → Lands top tf (0, k)
unfolding Resumes
stays top tf k at h = inl (refl, h, at)

-- An answer that changes frames only.
abbrev IsAnswer : (ℕ → Kernel → Kernel) → Type 0
IsAnswer refuse =
    (code : ℕ) (k : Kernel)
    → ((refuse code k).sched ≡ k.sched)
      × ((refuse code k).cr3 ≡ k.cr3)
      × ((refuse code k).heap.next ≡ k.heap.next)

refused :
    (top tf code : ℕ) (refuse : ℕ → Kernel → Kernel) (k : Kernel)
    → AtTop top tf
    → IsAnswer refuse
    → IsStable top k
    → Lands top tf (0, refuse code k)
refused top tf code refuse k at r h =
    stays top tf (refuse code k) at
      (moved top k (refuse code k) (r code k).2 (r code k).1 (r code k).0 h)

wait_or-Lands :
    (top tf : ℕ) (refuse : ℕ → Kernel → Kernel) (k : Kernel)
    → AtTop top tf
    → IsAnswer refuse
    → IsStable top k
    → Lands top tf (wait_or refuse tf k)
unfolding wait_or
wait_or-Lands top tf refuse k at r h =
    let out = wait_or refuse tf k in
    let cap : ℕ = u32 (k.frames tf).rdi in
    elim (Bool-cases (has_other_runnable k.sched)) [
      | inr alone ↦
          let e : out ≡ (0, refuse (u64_max - 2) k) = ground arith in
          subst (Lands top tf) (sym e) (refused top tf (u64_max - 2) refuse k at r h)
      | inl other ↦ elim (Option-cases (cap_lookup_current cap k.sched)) [
        | inl bad ↦
            let e : out ≡ (0, refuse u64_max k) = ground arith in
            subst (Lands top tf) (sym e) (refused top tf u64_max refuse k at r h)
        | inr (ep_id, named) ↦
            let i : Ipc = (waiter_push ep_id (current_pid k.sched) k.ipc).1 in
            let blocked : Sched = block_current_on_ep ep_id k.sched in
            let turn = yield_from_syscall tf blocked in
            elim (Bool-cases (waiter_push ep_id (current_pid k.sched) k.ipc).0) [
              | inl queued ↦
                  let e : out ≡ (turn.0, record k { ipc = i; sched = turn.1 }) = ground arith in
                  subst (Lands top tf) (sym e) (
                    yield-Resumes k.heap.next k.cr3 top tf blocked
                      (block-Stable k.heap.next k.cr3 top ep_id k.sched h) at)
              | inr full ↦
                  let e : out ≡ (0, refuse (u64_max - 2) (record k { ipc = i })) = ground arith in
                  subst (Lands top tf) (sym e)
                    (refused top tf (u64_max - 2) refuse (record k { ipc = i }) at r h)
            ]
      ]
    ]

pub recv_call-Lands :
    (top tf : ℕ) (k : Kernel) → AtTop top tf → IsStable top k → Lands top tf (recv_call tf k)
unfolding recv_call
recv_call-Lands top tf k at h =
    let f = k.frames tf in
    let n : ℕ = min (min f.rdx 1024) 256 in
    let r = ep_recv (u32 f.rdi) n k.sched k.ipc in
    let out = recv_call tf k in
    elim (Bool-cases (r.0.0 == u64_max)) [
      | inl bad ↦
          let e : out ≡ (0, set_rax tf u64_max k) = ground arith in
          subst (Lands top tf) (sym e) (stays top tf (set_rax tf u64_max k) at h)
      | inr fine ↦ elim (Bool-cases (r.0.0 == u64_max - 2)) [
        | inl empty ↦
            let e : out ≡ wait_or (set_rax tf) tf k = ground arith in
            subst (Lands top tf) (sym e)
              (wait_or-Lands top tf (set_rax tf) k at (λ code k'. (refl, refl, refl)) h)
        | inr some_message ↦
            let zero_r : out.0 ≡ 0 = ground arith in
            let s : IsStable top out.1 =
              moved top k out.1 {s = k.sched} (ground arith) (ground arith) (ground arith) h in
            subst (λ q. Lands top tf (q, out.1)) (sym zero_r) (stays top tf out.1 at s)
      ]
    ]

pub recv_cap_call-Lands :
    (top tf : ℕ) (k : Kernel) → AtTop top tf → IsStable top k → Lands top tf (recv_cap_call tf k)
unfolding recv_cap_call
recv_cap_call-Lands top tf k at h =
    let f = k.frames tf in
    let n : ℕ = min (min f.rdx 1024) 256 in
    let r = ep_recv_cap (u32 f.rdi) n k.sched k.ipc in
    let out = recv_cap_call tf k in
    let refuse : ℕ → Kernel → Kernel = λ code k'. set_rax_rdx tf code 0 k' in
    elim (Bool-cases (r.0.got == u64_max)) [
      | inl bad ↦
          let e : out ≡ (0, refuse u64_max k) = ground arith in
          subst (Lands top tf) (sym e) (stays top tf (refuse u64_max k) at h)
      | inr fine ↦ elim (Bool-cases (r.0.got == u64_max - 2)) [
        | inl empty ↦
            let e : out ≡ wait_or refuse tf k = ground arith in
            subst (Lands top tf) (sym e)
              (wait_or-Lands top tf refuse k at (λ code k'. (refl, refl, refl)) h)
        | inr some_message ↦
            let zero_r : out.0 ≡ 0 = ground arith in
            let s : IsStable top out.1 =
              elim (Bool-cases (copy_out k.mem k.cr3 f.rsi 0 r.0.bytes).0) [
                | inl copied ↦
                    moved top k out.1 {s = (recv_transfer r.0.xfer_ep k.sched).1} (ground arith)
                      (ground arith) (ground arith)
                      (recv_transfer-Stable k.heap.next k.cr3 top r.0.xfer_ep k.sched h)
                | inr lost ↦
                    moved top k out.1 {s = k.sched} (ground arith) (ground arith) (ground arith) h
              ] in
            subst (λ q. Lands top tf (q, out.1)) (sym zero_r) (stays top tf out.1 at s)
      ]
    ]
