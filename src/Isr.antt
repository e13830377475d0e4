-- ===== src/Isr.antt =====
-- kernel/src/arch/x86_64/isr.rs: the system calls of `int 0x80`, the delivery of a message to a
-- blocked receiver, and the timer and system-call stubs' switch of the frame and of CR3.
pub mod Trap
pub mod Sending
pub mod Confine
pub mod Stable
pub mod Landing
pub mod Running
pub mod Trapping
mod Tests
use mantra_os.Common.{
  ℕ, zero, suc, ◌+◌, ◌-◌, ◌%◌, ◌^◌, min, Bool, true, false, ◌&&◌, ◌||◌, not, ◌==◌, if◌then◌else◌,
  List, [], ◌∷◌, ◌++◌, Option, none, some, length, take,
}
use mantra_os.Common.Text.{codes}
use mantra_os.Common.Word.{u64_max}
use mantra_os.Common.Run.{Run, done, panic, ◌>>=◌}
use mantra_os.Serial.{write_dec_u64, write_hex_u64}
use mantra_os.Sched.{
  Sched, wake, proc_cr3, proc_tf_rsp, cap_alloc_for, cap_alloc_current, cap_lookup_current,
  current_pid, has_other_runnable, block_current_on_ep, yield_from_syscall, on_timer_irq,
}
use mantra_os.Ipc.{
  Ipc, Received, waiter_push, waiter_pop, ep_create, ep_send_cap, ep_recv, ep_recv_cap,
}
use mantra_os.Memory.{copy_in, copy_out, user_copy_out, read_until_unmapped}
use mantra_os.Machine.{Frame, Kernel, set_frame, set_rax, set_rax_rdx, send_serial, u32}
use mantra_os.Elf.{Elf}
use mantra_os.User.{or_zero, spawn_init_from_syscall}

-- The numbers of libs/sys/src/lib.rs.
pub data Call : Type 0 where
  putc yield write ep_create_call send recv send_cap recv_cap spawn unknown : Call

abbrev pub call_of : ℕ → Call
call_of n =
    if n == 1
    then putc
    else if n == 2
    then yield
    else if n == 3
    then write
    else if n == 0x10
    then ep_create_call
    else if n == 0x11
    then send
    else if n == 0x12
    then recv
    else if n == 0x13
    then send_cap
    else if n == 0x14
    then recv_cap
    else if n == 0x20
    then spawn
    else unknown

-- The transfer at the end of `deliver_ipc`: the receiver's new capability number, or 0.
pub transfer : ℕ → ℕ → Sched → ℕ × Sched
transfer pid xfer_ep s =
    if xfer_ep == 0
    then (0, s)
    else let (cap, s') = cap_alloc_for pid xfer_ep s in (or_zero cap, s')

-- `deliver_ipc` to the process whose root is `cr3` and whose saved frame is at `tf_rsp`.
pub deliver_at : ℕ → ℕ → ℕ → List ℕ → ℕ → Kernel → ℕ × Kernel
deliver_at cr3 tf_rsp pid msg xfer_ep k =
    let f = k.frames tf_rsp in
    let n = min (min (min f.rdx 1024) 256) (length msg) in
    let (copied, m) = copy_out k.mem cr3 f.rsi 0 (take n msg) in
    let (cap, s) = transfer pid xfer_ep k.sched in
    if copied
    then (n, set_rax_rdx tf_rsp n cap (record k { mem = m; sched = wake pid s }))
    else (u64_max, record k { mem = m })

pub deliver_ipc : ℕ → List ℕ → ℕ → Kernel → ℕ × Kernel
deliver_ipc pid msg xfer_ep k = elim (proc_cr3 pid k.sched) [
  | none ↦ (u64_max, k)
  | some cr3 ↦ elim (proc_tf_rsp pid k.sched) [
    | none ↦ (u64_max, k)
    | some tf_rsp ↦ deliver_at cr3 tf_rsp pid msg xfer_ep k
  ]
]

-- The message of a send is in hand: to a waiting receiver, else into the ring.
pub send_bytes : ℕ → List ℕ → ℕ → Kernel → ℕ × Kernel
send_bytes cap msg xfer_ep k = elim (cap_lookup_current cap k.sched) [
  | none ↦ (u64_max, k)
  | some ep_id ↦
      let (waiter, i) = waiter_pop ep_id k.ipc in
      elim waiter [
        | some pid ↦ deliver_ipc pid msg xfer_ep (record k { ipc = i })
        | none ↦ let (r, i') = ep_send_cap cap msg xfer_ep k.sched i in (r, record k { ipc = i' })
      ]
]

-- The body of IPC_SEND, and of IPC_SEND_CAP once its transfer is resolved.
pub send_call : ℕ → ℕ → Kernel → Kernel
send_call tf xfer_ep k =
    let f = k.frames tf in
    elim (copy_in k.mem k.cr3 f.rsi 0 (min (min f.rdx 1024) 256)) [
      | none ↦ set_rax tf u64_max k
      | some msg ↦ let (r, k') = send_bytes (u32 f.rdi) msg xfer_ep k in set_rax tf r k'
    ]

-- IPC_SEND_CAP; a transfer capability that names nothing ends the call at once.
pub send_cap_call : ℕ → Kernel → Kernel
send_cap_call tf k =
    let xfer_cap = u32 (k.frames tf).rcx in
    if xfer_cap == 0 then send_call tf 0 k else elim (cap_lookup_current xfer_cap k.sched) [
      | none ↦ set_rax tf u64_max k
      | some ep ↦ send_call tf ep k
    ]

-- What a receive does when nothing waits: wait in the endpoint's ring if another process can run.
-- `refuse` answers with a code where it cannot.
pub wait_or : (ℕ → Kernel → Kernel) → ℕ → Kernel → ℕ × Kernel
wait_or refuse tf k =
    if not (has_other_runnable k.sched)
    then (0, refuse (u64_max - 2) k)
    else elim (cap_lookup_current (u32 (k.frames tf).rdi) k.sched) [
      | none ↦ (0, refuse u64_max k)
      | some ep_id ↦
          let (queued, i) = waiter_push ep_id (current_pid k.sched) k.ipc in
          let (switch_to, s) = yield_from_syscall tf (block_current_on_ep ep_id k.sched) in
          if queued
          then (switch_to, record k { ipc = i; sched = s })
          else (0, refuse (u64_max - 2) (record k { ipc = i }))
    ]

pub recv_call : ℕ → Kernel → ℕ × Kernel
recv_call tf k =
    let f = k.frames tf in
    let ((got, bytes), i) = ep_recv (u32 f.rdi) (min (min f.rdx 1024) 256) k.sched k.ipc in
    let (copied, m) = user_copy_out k.mem k.cr3 f.rsi bytes in
    if got == u64_max
    then (0, set_rax tf u64_max k)
    else if got == u64_max - 2
    then wait_or (set_rax tf) tf k
    else (0, set_rax tf (if copied then got else u64_max) (record k { ipc = i; mem = m }))

-- The transfer at the end of IPC_RECV_CAP.
pub recv_transfer : ℕ → Sched → ℕ × Sched
recv_transfer xfer_ep s =
    if xfer_ep == 0
    then (0, s)
    else let (cap, s') = cap_alloc_current xfer_ep s in (or_zero cap, s')

pub recv_cap_call : ℕ → Kernel → ℕ × Kernel
recv_cap_call tf k =
    let f = k.frames tf in
    let (r, i) = ep_recv_cap (u32 f.rdi) (min (min f.rdx 1024) 256) k.sched k.ipc in
    let (copied, m) = user_copy_out k.mem k.cr3 f.rsi r.bytes in
    let (cap, s) = recv_transfer r.xfer_ep k.sched in
    let refuse = λ (code : ℕ) (k' : Kernel). set_rax_rdx tf code 0 k' in
    if r.got == u64_max
    then (0, refuse u64_max k)
    else if r.got == u64_max - 2
    then wait_or refuse tf k
    else if copied
    then (0, set_rax_rdx tf r.got cap (record k { ipc = i; mem = m; sched = s }))
    else (0, refuse u64_max (record k { ipc = i; mem = m }))

pub write_call : ℕ → Kernel → Kernel
write_call tf k =
    let f = k.frames tf in
    let bytes = read_until_unmapped k.mem k.cr3 f.rdi 0 (min f.rsi 1024) in
    set_rax tf (length bytes) (send_serial bytes k)

-- The arms of `mantra_syscall80_rust`: the frame to switch to, or 0, and the state.
unfoldable pub handle : Elf → Call → ℕ → Kernel → Run (ℕ × Kernel)
handle elf putc tf k = done (0, set_rax tf 0 (send_serial ((k.frames tf).rdi % 256 ∷ []) k))
handle elf yield tf k =
    let (switch_to, s) = yield_from_syscall tf k.sched in
    done (switch_to, set_rax tf 0 (record k { sched = s }))
handle elf write tf k = done (0, write_call tf k)
handle elf ep_create_call tf k =
    let (r, s, i) = ep_create k.sched k.ipc in
    done (0, set_rax tf r (record k { sched = s; ipc = i }))
handle elf send tf k = done (0, send_call tf 0 k)
handle elf recv tf k = done (recv_call tf k)
handle elf send_cap tf k = done (0, send_cap_call tf k)
handle elf recv_cap tf k = done (recv_cap_call tf k)
handle elf spawn tf k =
    let f = k.frames tf in
    (spawn_init_from_syscall elf f.rdi f.rsi (u32 f.rdx) k >>= λ (r, k'). done (0, set_rax tf r k'))
handle elf unknown tf k =
    let line = codes "SYS: unknown int80 n=" ++ write_hex_u64 (k.frames tf).rax ++ codes "\n" in
    done (0, set_rax tf u64_max (send_serial line k))

-- `mantra_syscall80_rust` for the frame at `tf`.
unfoldable pub syscall : Elf → ℕ → Kernel → Run (ℕ × Kernel)
syscall elf tf k = handle elf (call_of (k.frames tf).rax) tf k

-- The end of both assembly stubs: a frame other than 0 replaces the stack pointer, and CR3 is
-- loaded from `MANTRA_NEXT_CR3`.
unfoldable pub trap_end : ℕ → ℕ × Kernel → ℕ × Kernel
trap_end tf (switch_to, k) =
    if switch_to == 0 then (tf, k) else (switch_to, record k { cr3 = k.sched.next_cr3 })

unfoldable pub syscall_trap : Elf → ℕ → Kernel → Run (ℕ × Kernel)
syscall_trap elf tf k = syscall elf tf k >>= λ out. done (trap_end tf out)

-- The log line of `on_timer_irq`: every 100th tick, if it switches.
abbrev pub tick_log : ℕ → Sched → Sched → List ℕ
tick_log switch_to s s' =
    if switch_to == 0 || not (s'.ticks % 100 == 0)
    then []
    else codes "sched: tick="
      ++ write_dec_u64 s'.ticks
      ++ codes " switch "
      ++ write_dec_u64 s.current
      ++ codes "->"
      ++ write_dec_u64 s'.current
      ++ codes "\n"

-- `mantra_timer_irq_rust`, less the acknowledgement to the interrupt controller.
unfoldable pub timer_trap : ℕ → Kernel → Run (ℕ × Kernel)
timer_trap tf k = on_timer_irq tf k.sched >>= λ (switch_to, s).
    done
      (trap_end tf (switch_to, send_serial (tick_log switch_to k.sched s) (record k { sched = s })))
