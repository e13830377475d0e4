-- ===== src/Isr/Trap.antt =====
-- The end of a trap in kernel/src/arch/x86_64/isr.rs: which frame and which address space the
-- processor goes on with.
use mantra_os.Common.{ℕ, ◌≡◌, ◌≢◌, true, false, some, arith}
use mantra_os.Sched.{
  proc_at, cap_lookup_current, block_current_on_ep, has_other_runnable, yield_from_syscall,
}
use mantra_os.Sched.Pick.{runs}
use mantra_os.Sched.Switch.{IsTable}
use mantra_os.Sched.Table.{block_then_switch, block_then_yield}
use mantra_os.Ipc.{waiter_push}
use mantra_os.Machine.{Kernel, u32}
use mantra_os.Isr.{wait_or}

wait_or-queued :
    (refuse : ℕ → Kernel → Kernel) (tf ep_id : ℕ) (k : Kernel)
    → has_other_runnable k.sched ≡ true
    → cap_lookup_current (u32 (k.frames tf).rdi) k.sched ≡ some ep_id
    → (waiter_push ep_id k.sched.current k.ipc).0 ≡ true
    → wait_or refuse tf k ≡ (
      (yield_from_syscall tf (block_current_on_ep ep_id k.sched)).0,
      record k {
        ipc = (waiter_push ep_id k.sched.current k.ipc).1;
        sched = (yield_from_syscall tf (block_current_on_ep ep_id k.sched)).1;
      },
    )
unfolding wait_or
wait_or-queued refuse tf ep_id k other named queued = ground arith

-- In a started scheduler with a well-formed table, a receive that has found nothing, where another
-- process can run, the capability names an endpoint and that endpoint's ring of waiting processes
-- takes the caller: afterwards another process that can run is current, the answer is that one's
-- saved frame, and the caller cannot run and is blocked on the endpoint.
pub wait_or-switches :
    (refuse : ℕ → Kernel → Kernel) (tf ep_id : ℕ) (k : Kernel)
    → IsTable k.sched
    → k.sched.inited ≡ true
    → has_other_runnable k.sched ≡ true
    → cap_lookup_current (u32 (k.frames tf).rdi) k.sched ≡ some ep_id
    → (waiter_push ep_id k.sched.current k.ipc).0 ≡ true
    → let out = wait_or refuse tf k in
      (out.1.sched.current ≢ k.sched.current)
      × (runs k.sched out.1.sched.current ≡ true)
      × (out.0 ≡ (proc_at k.sched out.1.sched.current).tf_rsp)
      × (runs out.1.sched k.sched.current ≡ false)
      × ((proc_at out.1.sched k.sched.current).blocked_ep ≡ ep_id)
wait_or-switches refuse tf ep_id k v on other named queued =
    rw (wait_or-queued refuse tf ep_id k other named queued, block_then_yield tf ep_id k.sched on)
      (block_then_switch tf ep_id k.sched v other)
