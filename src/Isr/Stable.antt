-- ===== src/Isr/Stable.antt =====
-- The system calls of kernel/src/arch/x86_64/isr.rs against the place of the saved frames: sends
-- and deliveries.
use mantra_os.Common.{
  ℕ, min, ◌≡◌, inl, inr, sym, subst, ◌==◌, List, length, take, Bool-cases, Option-cases, arith,
}
use mantra_os.Common.Word.{u64_max}
use mantra_os.Sched.{
  Sched, proc_cr3, proc_tf_rsp, wake, cap_alloc_for, cap_alloc_current, cap_lookup_current,
}
use mantra_os.Sched.Stacks.{Stable, wake-Stable, cap_alloc_for-Stable, cap_alloc_current-Stable}
use mantra_os.Ipc.{Ipc, waiter_pop, ep_send_cap}
use mantra_os.Memory.{copy_in, copy_out}
use mantra_os.Machine.{Kernel, set_rax, u32}
use mantra_os.User.Stable.{IsStable, moved}
use mantra_os.Isr.{
  transfer, deliver_at, deliver_ipc, send_bytes, send_call, send_cap_call, recv_transfer,
}

transfer-Stable :
    (brk cr3 top pid xfer_ep : ℕ) (s : Sched)
    → Stable brk cr3 top s
    → Stable brk cr3 top (transfer pid xfer_ep s).1
unfolding transfer
transfer-Stable brk cr3 top pid xfer_ep s h = elim (Bool-cases (xfer_ep == 0)) [
  | inl nothing ↦
      let e : (transfer pid xfer_ep s).1 ≡ s = ground arith in subst (Stable brk cr3 top) (sym e) h
  | inr given ↦
      let e : (transfer pid xfer_ep s).1 ≡ (cap_alloc_for pid xfer_ep s).1 = ground arith in
      subst (Stable brk cr3 top) (sym e) (cap_alloc_for-Stable brk cr3 top pid xfer_ep s h)
]

pub recv_transfer-Stable :
    (brk cr3 top xfer_ep : ℕ) (s : Sched)
    → Stable brk cr3 top s
    → Stable brk cr3 top (recv_transfer xfer_ep s).1
unfolding recv_transfer
recv_transfer-Stable brk cr3 top xfer_ep s h = elim (Bool-cases (xfer_ep == 0)) [
  | inl nothing ↦
      let e : (recv_transfer xfer_ep s).1 ≡ s = ground arith in subst (Stable brk cr3 top) (sym e) h
  | inr given ↦
      let e : (recv_transfer xfer_ep s).1 ≡ (cap_alloc_current xfer_ep s).1 = ground arith in
      subst (Stable brk cr3 top) (sym e) (cap_alloc_current-Stable brk cr3 top xfer_ep s h)
]

deliver_at-Stable :
    (top cr3 tf_rsp pid : ℕ) (msg : List ℕ) (xfer_ep : ℕ) (k : Kernel)
    → IsStable top k
    → IsStable top (deliver_at cr3 tf_rsp pid msg xfer_ep k).1
unfolding deliver_at
deliver_at-Stable top cr3 tf_rsp pid msg xfer_ep k h =
    let f = k.frames tf_rsp in
    let n : ℕ = min (min (min f.rdx 1024) 256) (length msg) in
    let out = deliver_at cr3 tf_rsp pid msg xfer_ep k in
    elim (Bool-cases (copy_out k.mem cr3 f.rsi 0 (take n msg)).0) [
      | inl copied ↦
          let given : Sched = (transfer pid xfer_ep k.sched).1 in
          moved top k out.1 {s = wake pid given} (ground arith) (ground arith) (ground arith) (
            wake-Stable k.heap.next k.cr3 top pid given
              (transfer-Stable k.heap.next k.cr3 top pid xfer_ep k.sched h))
      | inr bad ↦ moved top k out.1 {s = k.sched} (ground arith) (ground arith) (ground arith) h
    ]

deliver_ipc-Stable :
    (top pid : ℕ) (msg : List ℕ) (xfer_ep : ℕ) (k : Kernel)
    → IsStable top k
    → IsStable top (deliver_ipc pid msg xfer_ep k).1
unfolding deliver_ipc
deliver_ipc-Stable top pid msg xfer_ep k h =
    let out = deliver_ipc pid msg xfer_ep k in
    elim (Option-cases (proc_cr3 pid k.sched)) [
      | inl gone ↦ let e : out.1 ≡ k = ground arith in subst (IsStable top) (sym e) h
      | inr (cr3, root) ↦ elim (Option-cases (proc_tf_rsp pid k.sched)) [
        | inl gone ↦ let e : out.1 ≡ k = ground arith in subst (IsStable top) (sym e) h
        | inr (tf, frame) ↦
            let e : out.1 ≡ (deliver_at cr3 tf pid msg xfer_ep k).1 = ground arith in
            subst (IsStable top) (sym e) (deliver_at-Stable top cr3 tf pid msg xfer_ep k h)
      ]
    ]

send_bytes-Stable :
    (top cap : ℕ) (msg : List ℕ) (xfer_ep : ℕ) (k : Kernel)
    → IsStable top k
    → IsStable top (send_bytes cap msg xfer_ep k).1
unfolding send_bytes
send_bytes-Stable top cap msg xfer_ep k h =
    let out = send_bytes cap msg xfer_ep k in
    elim (Option-cases (cap_lookup_current cap k.sched)) [
      | inl bad ↦ let e : out.1 ≡ k = ground arith in subst (IsStable top) (sym e) h
      | inr (ep_id, named) ↦
          let i : Ipc = (waiter_pop ep_id k.ipc).1 in
          elim (Option-cases (waiter_pop ep_id k.ipc).0) [
            | inl nobody ↦
                let e : out.1 ≡ record k { ipc = (ep_send_cap cap msg xfer_ep k.sched i).1 } =
                  ground arith in
                subst (IsStable top) (sym e) h
            | inr (pid, waits) ↦
                let e : out.1 ≡ (deliver_ipc pid msg xfer_ep (record k { ipc = i })).1 =
                  ground arith in
                subst (IsStable top) (sym e)
                  (deliver_ipc-Stable top pid msg xfer_ep (record k { ipc = i }) h)
          ]
    ]

pub send_call-Stable :
    (top tf xfer_ep : ℕ) (k : Kernel) → IsStable top k → IsStable top (send_call tf xfer_ep k)
unfolding send_call
send_call-Stable top tf xfer_ep k h =
    let f = k.frames tf in
    elim (Option-cases (copy_in k.mem k.cr3 f.rsi 0 (min (min f.rdx 1024) 256))) [
      | inl bad ↦
          let e : send_call tf xfer_ep k ≡ set_rax tf u64_max k = ground arith in
          subst (IsStable top) (sym e) h
      | inr (msg, read) ↦
          let sent = send_bytes (u32 f.rdi) msg xfer_ep k in
          let e : send_call tf xfer_ep k ≡ set_rax tf sent.0 sent.1 = ground arith in
          subst (IsStable top) (sym e) (send_bytes-Stable top (u32 f.rdi) msg xfer_ep k h)
    ]

pub send_cap_call-Stable :
    (top tf : ℕ) (k : Kernel) → IsStable top k → IsStable top (send_cap_call tf k)
unfolding send_cap_call
send_cap_call-Stable top tf k h =
    let xfer_cap : ℕ = u32 (k.frames tf).rcx in
    elim (Bool-cases (xfer_cap == 0)) [
      | inl nothing ↦
          let e : send_cap_call tf k ≡ send_call tf 0 k = ground arith in
          subst (IsStable top) (sym e) (send_call-Stable top tf 0 k h)
      | inr given ↦ elim (Option-cases (cap_lookup_current xfer_cap k.sched)) [
        | inl bad ↦
            let e : send_cap_call tf k ≡ set_rax tf u64_max k = ground arith in
            subst (IsStable top) (sym e) h
        | inr (ep, named) ↦
            let e : send_cap_call tf k ≡ send_call tf ep k = ground arith in
            subst (IsStable top) (sym e) (send_call-Stable top tf ep k h)
      ]
    ]
