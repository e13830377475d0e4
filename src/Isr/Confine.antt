-- ===== src/Isr/Confine.antt =====
-- Capability confinement in the system calls of kernel/src/arch/x86_64/isr.rs.
use mantra_os.Common.{
  ℕ, ◌+◌, ◌-◌, ◌≤◌, ◌<◌, min, ◌≡◌, inl, inr, refl, sym, ap, subst, ◌==◌, Bool-cases, Option-cases,
  arith,
}
use mantra_os.Common.Word.{u64_max, u64_mod}
use mantra_os.Common.Run.{Run, done, panic, Run-cases}
use mantra_os.Sched.{
  Sched, current_pid, cap_lookup_current, block_current_on_ep, has_other_runnable,
  yield_from_syscall,
}
use mantra_os.Sched.Confine.{SchedUpTo, block-UpTo, yield-UpTo}
use mantra_os.Ipc.{Ipc, waiter_push, ep_recv, ep_recv_cap}
use mantra_os.Ipc.Bound.{IpcUpTo, ep_recv-UpTo}
use mantra_os.Ipc.Confine.{Confined, ep_recv_plain-UpTo, waiter_push-UpTo, ep_create-Confined}
use mantra_os.Memory.{copy_out}
use mantra_os.Machine.{Kernel, set_rax, set_rax_rdx, u32}
use mantra_os.Elf.{Elf}
use mantra_os.User.{spawn_init_from_syscall}
use mantra_os.User.Confine.{Keeps, spawn-Keeps}
use mantra_os.Isr.{
  Call, call_of, send_call, send_cap_call, wait_or, recv_call, recv_transfer, recv_cap_call,
  write_call, handle, syscall,
}
use mantra_os.Isr.Sending.{KernelUpTo, recv_transfer-UpTo, send_call-UpTo, send_cap_call-UpTo}

-- An answer that changes frames only.
abbrev IsAnswer : (ℕ → Kernel → Kernel) → Type 0
IsAnswer refuse =
    (code : ℕ) (k : Kernel) → ((refuse code k).sched ≡ k.sched) × ((refuse code k).ipc ≡ k.ipc)

answer-UpTo :
    (b code : ℕ) (refuse : ℕ → Kernel → Kernel) (k : Kernel)
    → IsAnswer refuse
    → KernelUpTo b k
    → KernelUpTo b (refuse code k)
answer-UpTo b code refuse k r h =
    (subst (SchedUpTo b) (sym (r code k).0) h.0, subst (IpcUpTo b) (sym (r code k).1) h.1)

wait_or-UpTo :
    (b tf : ℕ) (refuse : ℕ → Kernel → Kernel) (k : Kernel)
    → IsAnswer refuse
    → KernelUpTo b k
    → KernelUpTo b (wait_or refuse tf k).1
unfolding wait_or
wait_or-UpTo b tf refuse k r h =
    let out = wait_or refuse tf k in
    let cap : ℕ = u32 (k.frames tf).rdi in
    elim (Bool-cases (has_other_runnable k.sched)) [
      | inr alone ↦
          let e : out.1 ≡ refuse (u64_max - 2) k = ground arith in
          subst (KernelUpTo b) (sym e) (answer-UpTo b (u64_max - 2) refuse k r h)
      | inl other ↦ elim (Option-cases (cap_lookup_current cap k.sched)) [
        | inl bad ↦
            let e : out.1 ≡ refuse u64_max k = ground arith in
            subst (KernelUpTo b) (sym e) (answer-UpTo b u64_max refuse k r h)
        | inr (ep_id, named) ↦
            let i : Ipc = (waiter_push ep_id (current_pid k.sched) k.ipc).1 in
            let hi : IpcUpTo b i = waiter_push-UpTo b ep_id (current_pid k.sched) k.ipc h.1 in
            let s : Sched = (yield_from_syscall tf (block_current_on_ep ep_id k.sched)).1 in
            let hs : SchedUpTo b s =
              yield-UpTo b tf (block_current_on_ep ep_id k.sched)
                (block-UpTo b ep_id k.sched h.0) in
            elim (Bool-cases (waiter_push ep_id (current_pid k.sched) k.ipc).0) [
              | inl queued ↦
                  let e : out.1 ≡ record k { ipc = i; sched = s } = ground arith in
                  subst (KernelUpTo b) (sym e) (hs, hi)
              | inr full ↦
                  let e : out.1 ≡ refuse (u64_max - 2) (record k { ipc = i }) = ground arith in
                  subst (KernelUpTo b) (sym e)
                    (answer-UpTo b (u64_max - 2) refuse (record k { ipc = i }) r (h.0, hi))
            ]
      ]
    ]

recv_call-UpTo : (b tf : ℕ) (k : Kernel) → KernelUpTo b k → KernelUpTo b (recv_call tf k).1
unfolding recv_call
recv_call-UpTo b tf k h =
    let f = k.frames tf in
    let n : ℕ = min (min f.rdx 1024) 256 in
    let r = ep_recv (u32 f.rdi) n k.sched k.ipc in
    let out = recv_call tf k in
    let hi : IpcUpTo b r.1 = ep_recv_plain-UpTo b (u32 f.rdi) n k.sched k.ipc h.1 in
    elim (Bool-cases (r.0.0 == u64_max)) [
      | inl bad ↦
          let e : out.1 ≡ set_rax tf u64_max k = ground arith in subst (KernelUpTo b) (sym e) h
      | inr fine ↦ elim (Bool-cases (r.0.0 == u64_max - 2)) [
        | inl empty ↦
            let e : out.1 ≡ (wait_or (set_rax tf) tf k).1 = ground arith in
            subst (KernelUpTo b) (sym e)
              (wait_or-UpTo b tf (set_rax tf) k (λ code k'. (refl, refl)) h)
        | inr some_message ↦
            let es : out.1.sched ≡ k.sched = ground arith in
            let ei : out.1.ipc ≡ r.1 = ground arith in
            (subst (SchedUpTo b) (sym es) h.0, subst (IpcUpTo b) (sym ei) hi)
      ]
    ]

recv_cap_call-UpTo : (b tf : ℕ) (k : Kernel) → KernelUpTo b k → KernelUpTo b (recv_cap_call tf k).1
unfolding recv_cap_call
recv_cap_call-UpTo b tf k h =
    let f = k.frames tf in
    let n : ℕ = min (min f.rdx 1024) 256 in
    let r = ep_recv_cap (u32 f.rdi) n k.sched k.ipc in
    let out = recv_cap_call tf k in
    let refuse : ℕ → Kernel → Kernel = λ code k'. set_rax_rdx tf code 0 k' in
    let hi : IpcUpTo b r.1 × (r.0.xfer_ep ≤ b) = ep_recv-UpTo b (u32 f.rdi) n k.sched k.ipc h.1 in
    elim (Bool-cases (r.0.got == u64_max)) [
      | inl bad ↦ let e : out.1 ≡ refuse u64_max k = ground arith in subst (KernelUpTo b) (sym e) h
      | inr fine ↦ elim (Bool-cases (r.0.got == u64_max - 2)) [
        | inl empty ↦
            let e : out.1 ≡ (wait_or refuse tf k).1 = ground arith in
            subst (KernelUpTo b) (sym e) (wait_or-UpTo b tf refuse k (λ code k'. (refl, refl)) h)
        | inr some_message ↦ elim (Bool-cases (copy_out k.mem k.cr3 f.rsi 0 r.0.bytes).0) [
          | inl copied ↦
              let es : out.1.sched ≡ (recv_transfer r.0.xfer_ep k.sched).1 = ground arith in
              let ei : out.1.ipc ≡ r.1 = ground arith in
              (
                subst (SchedUpTo b) (sym es) (recv_transfer-UpTo b r.0.xfer_ep k.sched hi.1 h.0),
                subst (IpcUpTo b) (sym ei) hi.0,
              )
          | inr lost ↦
              let es : out.1.sched ≡ k.sched = ground arith in
              let ei : out.1.ipc ≡ r.1 = ground arith in
              (subst (SchedUpTo b) (sym es) h.0, subst (IpcUpTo b) (sym ei) hi.0)
        ]
      ]
    ]

-- The state that a call leaves, if it returns.
left_in : Kernel → Run (ℕ × Kernel) → Kernel
left_in k (done (r, k')) = k'
left_in k panic = k

UpTo-Confined : (b : ℕ) (k : Kernel) → KernelUpTo b k → Confined k.sched k.ipc
UpTo-Confined b k h = (b, h.0, h.1)

spawn_call-Confined :
    (elf : Elf) (tf : ℕ) (k : Kernel)
    → Confined k.sched k.ipc
    → let k' = left_in k (handle elf Call.spawn tf k) in Confined k'.sched k'.ipc
unfolding handle left_in
spawn_call-Confined elf tf k (b, hs, hi) =
    let f = k.frames tf in
    elim (Run-cases (spawn_init_from_syscall elf f.rdi f.rsi (u32 f.rdx) k)) [
      | inl failed ↦ rw failed (b, hs, hi)
      | inr ((r, k'), made) ↦
          let kept : Keeps b k k' = spawn-Keeps b elf f.rdi f.rsi (u32 f.rdx) r k k' hs made in
          rw made (b, kept.0, subst (IpcUpTo b) (sym kept.1) hi)
    ]

handle-Confined :
    (elf : Elf) (c : Call) (tf : ℕ) (k : Kernel)
    → Confined k.sched k.ipc
    → k.ipc.next_ep + 1 < u64_mod
    → Confined (left_in k (handle elf c tf k)).sched (left_in k (handle elf c tf k)).ipc
unfolding handle left_in write_call
handle-Confined elf Call.putc tf k h small = h
handle-Confined elf Call.yield tf k (b, hs, hi) small = (b, yield-UpTo b tf k.sched hs, hi)
handle-Confined elf Call.write tf k h small = h
handle-Confined elf Call.ep_create_call tf k h small = ep_create-Confined k.sched k.ipc small h
handle-Confined elf Call.send tf k (b, hs, hi) small =
    UpTo-Confined b (send_call tf 0 k) (send_call-UpTo b tf 0 k (omega arith) (hs, hi))
handle-Confined elf Call.recv tf k (b, hs, hi) small =
    UpTo-Confined b (recv_call tf k).1 (recv_call-UpTo b tf k (hs, hi))
handle-Confined elf Call.send_cap tf k (b, hs, hi) small =
    UpTo-Confined b (send_cap_call tf k) (send_cap_call-UpTo b tf k (hs, hi))
handle-Confined elf Call.recv_cap tf k (b, hs, hi) small =
    UpTo-Confined b (recv_cap_call tf k).1 (recv_cap_call-UpTo b tf k (hs, hi))
handle-Confined elf Call.spawn tf k h small = spawn_call-Confined elf tf k h
handle-Confined elf Call.unknown tf k h small = h

-- Capability confinement: while the count of attempts to create an endpoint does not wrap, each system
-- call, the spawn included, keeps the property that every capability of every process and every message
-- in a ring names endpoints that have been created, of which there are at most 32 however many attempts
-- were refused, and that the process table is well formed.
pub syscall-Confined :
    (elf : Elf) (tf r : ℕ) (k k' : Kernel)
    → Confined k.sched k.ipc
    → k.ipc.next_ep + 1 < u64_mod
    → syscall elf tf k ≡ done (r, k')
    → Confined k'.sched k'.ipc
unfolding left_in syscall
syscall-Confined elf tf r k k' h small e =
    subst (λ q. Confined q.sched q.ipc) (ap (left_in k) e)
      (handle-Confined elf (call_of (k.frames tf).rax) tf k h small)
