-- ===== src/Isr/Trapping.antt =====
-- Capability confinement across whole traps of kernel/src/arch/x86_64/isr.rs.
use mantra_os.Common.{ℕ, inl, inr, ◌==◌, Bool-cases, ◌+◌, ◌<◌, ◌≡◌, subst, true}
use mantra_os.Common.Word.{u64_mod}
use mantra_os.Common.Run.{done, >>=-eq-done, done-injective}
use mantra_os.Sched.{on_timer_irq}
use mantra_os.Sched.Resume.{on_timer_irq-UpTo}
use mantra_os.Ipc.Confine.{Confined}
use mantra_os.Machine.{Kernel}
use mantra_os.Elf.{Elf}
use mantra_os.Isr.{syscall, syscall_trap, timer_trap, trap_end}
use mantra_os.Isr.Running.{ticked_kernel}
use mantra_os.Isr.Confine.{syscall-Confined}

trap_end-Confined :
    (tf r : ℕ) (k : Kernel)
    → Confined k.sched k.ipc
    → Confined (trap_end tf (r, k)).1.sched (trap_end tf (r, k)).1.ipc
unfolding trap_end
trap_end-Confined tf r k c = elim (Bool-cases (r == 0)) [
  | inl nothing ↦ rw nothing c
  | inr switches ↦ rw switches c
]

pub call-Confined :
    (elf : Elf) (tf tf' : ℕ) (k k' : Kernel)
    → Confined k.sched k.ipc
    → k.ipc.next_ep + 1 < u64_mod
    → syscall_trap elf tf k ≡ done (tf', k')
    → Confined k'.sched k'.ipc
unfolding syscall_trap
call-Confined elf tf tf' k k' c small e =
    let ((r, k1), made, rest) = >>=-eq-done (syscall elf tf k) (λ t. done (trap_end tf t)) e in
    subst (λ (q : ℕ × Kernel). Confined q.1.sched q.1.ipc)
      (done-injective (trap_end tf (r, k1)) (tf', k') rest)
      (trap_end-Confined tf r k1 (syscall-Confined elf tf r k k1 c small made))

pub timer-Confined :
    (tf tf' : ℕ) (k k' : Kernel)
    → k.sched.inited ≡ true
    → Confined k.sched k.ipc
    → timer_trap tf k ≡ done (tf', k')
    → Confined k'.sched k'.ipc
unfolding timer_trap
timer-Confined tf tf' k k' on (b, hs, hi) e =
    let (turn, made, rest) =
      >>=-eq-done (on_timer_irq tf k.sched) (λ t. done (trap_end tf (ticked_kernel t k))) e in
    subst (λ (q : ℕ × Kernel). Confined q.1.sched q.1.ipc)
      (done-injective (trap_end tf (ticked_kernel turn k)) (tf', k') rest)
      (trap_end-Confined tf turn.0 (ticked_kernel turn k).1
        (b, on_timer_irq-UpTo b tf k.sched turn on hs made, hi))
