-- ===== src/Isr/Sending.antt =====
-- Capability confinement in the sends and the delivery of kernel/src/arch/x86_64/isr.rs.
use mantra_os.Common.{
  ℕ, ◌≤◌, min, ◌≡◌, inl, inr, sym, subst, ◌==◌, List, length, take, Bool-cases, Option-cases, arith,
}
use mantra_os.Common.Word.{u64_max}
use mantra_os.Sched.{
  Sched, proc_cr3, proc_tf_rsp, wake, cap_alloc_for, cap_alloc_current, cap_lookup_current,
}
use mantra_os.Sched.Confine.{
  SchedUpTo, cap_alloc_for-UpTo, cap_alloc_current-UpTo, cap_lookup-UpTo, wake-UpTo,
}
use mantra_os.Ipc.{Ipc, waiter_pop, ep_send_cap}
use mantra_os.Ipc.Bound.{IpcUpTo, ep_send-UpTo}
use mantra_os.Ipc.Confine.{waiter_pop-UpTo}
use mantra_os.Memory.{copy_in, copy_out}
use mantra_os.Machine.{Kernel, set_rax, u32}
use mantra_os.Isr.{
  transfer, deliver_at, deliver_ipc, send_bytes, send_call, send_cap_call, recv_transfer,
}

abbrev pub KernelUpTo : ℕ → Kernel → Type 0
KernelUpTo b k = SchedUpTo b k.sched × IpcUpTo b k.ipc

transfer-UpTo :
    (b pid xfer_ep : ℕ) (s : Sched)
    → xfer_ep ≤ b
    → SchedUpTo b s
    → SchedUpTo b (transfer pid xfer_ep s).1
unfolding transfer
transfer-UpTo b pid xfer_ep s le h = elim (Bool-cases (xfer_ep == 0)) [
  | inl nothing ↦
      let e : (transfer pid xfer_ep s).1 ≡ s = ground arith in subst (SchedUpTo b) (sym e) h
  | inr given ↦
      let e : (transfer pid xfer_ep s).1 ≡ (cap_alloc_for pid xfer_ep s).1 = ground arith in
      subst (SchedUpTo b) (sym e) (cap_alloc_for-UpTo b pid xfer_ep s le h)
]

pub recv_transfer-UpTo :
    (b xfer_ep : ℕ) (s : Sched)
    → xfer_ep ≤ b
    → SchedUpTo b s
    → SchedUpTo b (recv_transfer xfer_ep s).1
unfolding recv_transfer
recv_transfer-UpTo b xfer_ep s le h = elim (Bool-cases (xfer_ep == 0)) [
  | inl nothing ↦
      let e : (recv_transfer xfer_ep s).1 ≡ s = ground arith in subst (SchedUpTo b) (sym e) h
  | inr given ↦
      let e : (recv_transfer xfer_ep s).1 ≡ (cap_alloc_current xfer_ep s).1 = ground arith in
      subst (SchedUpTo b) (sym e) (cap_alloc_current-UpTo b xfer_ep s le h)
]

deliver_at-UpTo :
    (b cr3 tf_rsp pid : ℕ) (msg : List ℕ) (xfer_ep : ℕ) (k : Kernel)
    → xfer_ep ≤ b
    → KernelUpTo b k
    → KernelUpTo b (deliver_at cr3 tf_rsp pid msg xfer_ep k).1
unfolding deliver_at
deliver_at-UpTo b cr3 tf_rsp pid msg xfer_ep k le h =
    let f = k.frames tf_rsp in
    let n : ℕ = min (min (min f.rdx 1024) 256) (length msg) in
    let out = deliver_at cr3 tf_rsp pid msg xfer_ep k in
    elim (Bool-cases (copy_out k.mem cr3 f.rsi 0 (take n msg)).0) [
      | inl copied ↦
          let es : out.1.sched ≡ wake pid (transfer pid xfer_ep k.sched).1 = ground arith in
          let ei : out.1.ipc ≡ k.ipc = ground arith in
          (
            subst (SchedUpTo b) (sym es) (
                wake-UpTo b pid (transfer pid xfer_ep k.sched).1
                  (transfer-UpTo b pid xfer_ep k.sched le h.0)),
            subst (IpcUpTo b) (sym ei) h.1,
          )
      | inr bad ↦
          let es : out.1.sched ≡ k.sched = ground arith in
          let ei : out.1.ipc ≡ k.ipc = ground arith in
          (subst (SchedUpTo b) (sym es) h.0, subst (IpcUpTo b) (sym ei) h.1)
    ]

deliver_ipc-UpTo :
    (b pid : ℕ) (msg : List ℕ) (xfer_ep : ℕ) (k : Kernel)
    → xfer_ep ≤ b
    → KernelUpTo b k
    → KernelUpTo b (deliver_ipc pid msg xfer_ep k).1
unfolding deliver_ipc
deliver_ipc-UpTo b pid msg xfer_ep k le h =
    let out = deliver_ipc pid msg xfer_ep k in
    elim (Option-cases (proc_cr3 pid k.sched)) [
      | inl gone ↦ let e : out.1 ≡ k = ground arith in subst (KernelUpTo b) (sym e) h
      | inr (cr3, root) ↦ elim (Option-cases (proc_tf_rsp pid k.sched)) [
        | inl gone ↦ let e : out.1 ≡ k = ground arith in subst (KernelUpTo b) (sym e) h
        | inr (tf, frame) ↦
            let e : out.1 ≡ (deliver_at cr3 tf pid msg xfer_ep k).1 = ground arith in
            subst (KernelUpTo b) (sym e) (deliver_at-UpTo b cr3 tf pid msg xfer_ep k le h)
      ]
    ]

send_bytes-UpTo :
    (b cap : ℕ) (msg : List ℕ) (xfer_ep : ℕ) (k : Kernel)
    → xfer_ep ≤ b
    → KernelUpTo b k
    → KernelUpTo b (send_bytes cap msg xfer_ep k).1
unfolding send_bytes
send_bytes-UpTo b cap msg xfer_ep k le h =
    let out = send_bytes cap msg xfer_ep k in
    elim (Option-cases (cap_lookup_current cap k.sched)) [
      | inl bad ↦ let e : out.1 ≡ k = ground arith in subst (KernelUpTo b) (sym e) h
      | inr (ep_id, named) ↦
          let i : Ipc = (waiter_pop ep_id k.ipc).1 in
          let hi : IpcUpTo b i = waiter_pop-UpTo b ep_id k.ipc h.1 in
          elim (Option-cases (waiter_pop ep_id k.ipc).0) [
            | inl nobody ↦
                let e : out.1 ≡ record k { ipc = (ep_send_cap cap msg xfer_ep k.sched i).1 } =
                  ground arith in
                subst (KernelUpTo b) (sym e) (h.0, ep_send-UpTo b cap msg xfer_ep k.sched i le hi)
            | inr (pid, waits) ↦
                let e : out.1 ≡ (deliver_ipc pid msg xfer_ep (record k { ipc = i })).1 =
                  ground arith in
                subst (KernelUpTo b) (sym e)
                  (deliver_ipc-UpTo b pid msg xfer_ep (record k { ipc = i }) le (h.0, hi))
          ]
    ]

pub send_call-UpTo :
    (b tf xfer_ep : ℕ) (k : Kernel)
    → xfer_ep ≤ b
    → KernelUpTo b k
    → KernelUpTo b (send_call tf xfer_ep k)
unfolding send_call
send_call-UpTo b tf xfer_ep k le h =
    let f = k.frames tf in
    elim (Option-cases (copy_in k.mem k.cr3 f.rsi 0 (min (min f.rdx 1024) 256))) [
      | inl bad ↦
          let e : send_call tf xfer_ep k ≡ set_rax tf u64_max k = ground arith in
          subst (KernelUpTo b) (sym e) h
      | inr (msg, read) ↦
          let sent = send_bytes (u32 f.rdi) msg xfer_ep k in
          let e : send_call tf xfer_ep k ≡ set_rax tf sent.0 sent.1 = ground arith in
          subst (KernelUpTo b) (sym e) (send_bytes-UpTo b (u32 f.rdi) msg xfer_ep k le h)
    ]

pub send_cap_call-UpTo :
    (b tf : ℕ) (k : Kernel) → KernelUpTo b k → KernelUpTo b (send_cap_call tf k)
unfolding send_cap_call
send_cap_call-UpTo b tf k h =
    let xfer_cap : ℕ = u32 (k.frames tf).rcx in
    elim (Bool-cases (xfer_cap == 0)) [
      | inl nothing ↦
          let e : send_cap_call tf k ≡ send_call tf 0 k = ground arith in
          subst (KernelUpTo b) (sym e) (send_call-UpTo b tf 0 k (omega arith) h)
      | inr given ↦ elim (Option-cases (cap_lookup_current xfer_cap k.sched)) [
        | inl bad ↦
            let e : send_cap_call tf k ≡ set_rax tf u64_max k = ground arith in
            subst (KernelUpTo b) (sym e) h
        | inr (ep, named) ↦
            let e : send_cap_call tf k ≡ send_call tf ep k = ground arith in
            subst (KernelUpTo b) (sym e)
              (send_call-UpTo b tf ep k (cap_lookup-UpTo b xfer_cap ep k.sched h.0 named) h)
      ]
    ]
