-- ===== src/Isr/Running.antt =====
-- The traps of kernel/src/arch/x86_64/isr.rs, from the frame of one process to the frame of the next:
-- each process's frame stays at the top of its own kernel stack.
use mantra_os.Common.{ℕ, ◌%◌, [], ◌∷◌, ◌++◌, ◌≡◌, inl, inr, sym, subst, ◌==◌, false, arith}
use mantra_os.Common.Word.{u64_max}
use mantra_os.Common.Run.{done, >>=-eq-done, done-injective}
use mantra_os.Sched.{Sched, yield_from_syscall, on_timer_irq}
use mantra_os.Sched.Stacks.{AtTop, Stable, cap_alloc_current-Stable}
use mantra_os.Sched.Resume.{Resumes, yield-Resumes, on_timer_irq-Resumes}
use mantra_os.Ipc.{Ipc, ep_create}
use mantra_os.Machine.{Kernel, set_rax, send_serial, u32}
use mantra_os.Common.Text.{codes}
use mantra_os.Serial.{write_hex_u64}
use mantra_os.Elf.{Elf}
use mantra_os.User.{spawn_init_from_syscall}
use mantra_os.User.Stable.{IsStable, spawn-Stable}
use mantra_os.Isr.{
  Call, call_of, recv_call, recv_cap_call, write_call, handle, syscall, trap_end, syscall_trap,
  tick_log, timer_trap,
}
use mantra_os.Isr.Stable.{send_call-Stable, send_cap_call-Stable}
use mantra_os.Ipc.Confine.{ep_create-cases}
use mantra_os.Isr.Landing.{Lands, stays, recv_call-Lands, recv_cap_call-Lands}
use mantra_os.Isr.{send_call, send_cap_call}

ep_create-Stable :
    (brk cr3 top : ℕ) (s : Sched) (i : Ipc)
    → Stable brk cr3 top s
    → Stable brk cr3 top (ep_create s i).1
ep_create-Stable brk cr3 top s i h = elim (ep_create-cases s i) [
  | inl (es, ei) ↦ subst (Stable brk cr3 top) (sym es) h
  | inr (ep, new, es, ei) ↦
      subst (Stable brk cr3 top) (sym es) (cap_alloc_current-Stable brk cr3 top ep s h)
]

-- A handler that goes back to the process.
returned :
    (top tf : ℕ) (k : Kernel) (out : ℕ × Kernel)
    → AtTop top tf
    → IsStable top k
    → done (0, k) ≡ done out
    → Lands top tf out
returned top tf k out at h e =
    subst (Lands top tf) (done-injective (0, k) out e) (stays top tf k at h)

handle-Lands :
    (elf : Elf) (c : Call) (top tf : ℕ) (k : Kernel) (out : ℕ × Kernel)
    → AtTop top tf
    → IsStable top k
    → handle elf c tf k ≡ done out
    → Lands top tf out
unfolding handle write_call
handle-Lands elf Call.putc top tf k out at h e =
    returned top tf (set_rax tf 0 (send_serial ((k.frames tf).rdi % 256 ∷ []) k)) out at h e
handle-Lands elf Call.yield top tf k out at h e =
    let turn = yield_from_syscall tf k.sched in
    subst (Lands top tf) (done-injective (turn.0, set_rax tf 0 (record k { sched = turn.1 })) out e)
      (yield-Resumes k.heap.next k.cr3 top tf k.sched h at)
handle-Lands elf Call.write top tf k out at h e = returned top tf (write_call tf k) out at h e
handle-Lands elf Call.ep_create_call top tf k out at h e =
    let (r, s, i) = ep_create k.sched k.ipc in
    returned top tf (set_rax tf r (record k { sched = s; ipc = i })) out at
      (ep_create-Stable k.heap.next k.cr3 top k.sched k.ipc h) e
handle-Lands elf Call.send top tf k out at h e =
    returned top tf (send_call tf 0 k) out at (send_call-Stable top tf 0 k h) e
handle-Lands elf Call.recv top tf k out at h e =
    subst (Lands top tf) (done-injective (recv_call tf k) out e) (recv_call-Lands top tf k at h)
handle-Lands elf Call.send_cap top tf k out at h e =
    returned top tf (send_cap_call tf k) out at (send_cap_call-Stable top tf k h) e
handle-Lands elf Call.recv_cap top tf k out at h e =
    subst (Lands top tf) (done-injective (recv_cap_call tf k) out e)
      (recv_cap_call-Lands top tf k at h)
handle-Lands elf Call.spawn top tf k out at h e =
    let f = k.frames tf in
    let ((r, k'), made, rest) =
      >>=-eq-done (spawn_init_from_syscall elf f.rdi f.rsi (u32 f.rdx) k)
        (λ (r, k'). done (0, set_rax tf r k')) e in
    returned top tf (set_rax tf r k') out at
      (spawn-Stable top elf f.rdi f.rsi (u32 f.rdx) r k k' h made) rest
handle-Lands elf Call.unknown top tf k out at h e =
    let line = codes "SYS: unknown int80 n=" ++ write_hex_u64 (k.frames tf).rax ++ codes "\n" in
    returned top tf (set_rax tf u64_max (send_serial line k)) out at h e

-- The processor is in a process whose frame at the trap is `tf`, at the top of its kernel stack: the scheduler is started, the process is the
-- current one and alive, its address space is in CR3, its kernel stack takes the next trap, and the
-- frame of every live process is at the top of that process's own kernel stack, which is below the
-- heap's next free byte and shares none with the stack of another.
pub record Running (tf : ℕ) (k : Kernel) : Type 0 where
  pub stable : IsStable k.sched.rsp0 k
  pub frame : AtTop k.sched.rsp0 tf

-- After the end of the stub.
trap_end-Running :
    (top tf r : ℕ) (k : Kernel)
    → Lands top tf (r, k)
    → Running (trap_end tf (r, k)).0 (trap_end tf (r, k)).1
unfolding trap_end Resumes
trap_end-Running top tf r k (inl (zero_r, h, at)) = rw zero_r (record {
  stable = subst (λ t. IsStable t k) (sym h.trap) h;
  frame = subst (λ t. AtTop t tf) (sym h.trap) at;
})
trap_end-Running top tf r k (inr (positive, h, at)) =
    let some_frame : (r == 0) ≡ false = ground arith in
    let own : AtTop k.sched.rsp0 r = rw (h.stack, sym at) (h.frames k.sched.current h.alive) in
    rw some_frame (record { stable = h; frame = own })

-- A system call from a running process, whichever call it is and whatever it answers, ends with a
-- running process: the one whose frame the processor goes on with.
pub syscall_trap-Running :
    (elf : Elf) (tf tf' : ℕ) (k k' : Kernel)
    → Running tf k
    → syscall_trap elf tf k ≡ done (tf', k')
    → Running tf' k'
unfolding syscall_trap syscall
syscall_trap-Running elf tf tf' k k' w e =
    let (out, made, rest) = >>=-eq-done (syscall elf tf k) (λ t. done (trap_end tf t)) e in
    let h =
      handle-Lands elf (call_of (k.frames tf).rax) k.sched.rsp0 tf k out w.frame w.stable made in
    subst (λ (q : ℕ × Kernel). Running q.0 q.1) (done-injective (trap_end tf out) (tf', k') rest)
      (trap_end-Running k.sched.rsp0 tf out.0 out.1 h)

-- What `timer_trap` passes to the end of the stub.
abbrev pub ticked_kernel : ℕ × Sched → Kernel → ℕ × Kernel
ticked_kernel (r, s) k = (r, send_serial (tick_log r k.sched s) (record k { sched = s }))

-- So does a timer interrupt.
pub timer_trap-Running :
    (tf tf' : ℕ) (k k' : Kernel) → Running tf k → timer_trap tf k ≡ done (tf', k') → Running tf' k'
unfolding timer_trap
timer_trap-Running tf tf' k k' w e =
    let (turn, made, rest) =
      >>=-eq-done (on_timer_irq tf k.sched) (λ t. done (trap_end tf (ticked_kernel t k))) e in
    subst (λ (q : ℕ × Kernel). Running q.0 q.1)
      (done-injective (trap_end tf (ticked_kernel turn k)) (tf', k') rest)
      (trap_end-Running k.sched.rsp0 tf turn.0 (ticked_kernel turn k).1
        (on_timer_irq-Resumes k.heap.next k.cr3 k.sched.rsp0 tf k.sched turn w.stable w.frame made))
