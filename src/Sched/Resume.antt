-- ===== src/Sched/Resume.antt =====
-- A trap of kernel/src/sched.rs, against the place of the saved frames.
use mantra_os.Common.{
  ℕ, ◌<◌, ◌≡◌, inl, inr, refl, sym, ap, subst, ◌∙◌, true, ◌⊎◌, Bool, ◌&&◌, arith,
}
use native.Mathlib.Decide.{ℕ_discrete}
use mantra_os.Sched.{Sched, proc_at, switch_from, yield_from_syscall, on_timer_irq}
use mantra_os.Common.Run.{done}
use mantra_os.Sched.Pick.{Picks}
use mantra_os.Sched.Switch.{Switched, switch-Switched}
use mantra_os.Sched.Confine.{SchedUpTo, same_caps-UpTo, yield-cases}
use mantra_os.Sched.Fair.{on_timer_irq-Switched}
use mantra_os.Sched.Stacks.{AtTop, OnStack, Stable}
use mantra_os.Sched.Fences.{Fenced, same_stacks-Fenced}

and-left : (a b : Bool) → (a && b) ≡ true → a ≡ true
and-left a b h = ground arith

-- What a trap ends with: the answer is 0 and the process goes on, or it is the saved frame of the
-- process that is now current, whose address space is the next to load.
unfoldable pub Resumes : ℕ → ℕ → ℕ → ℕ → ℕ × Sched → Type 0
Resumes brk cr3 top tf (r, s) =
    ((r ≡ 0) × Stable brk cr3 top s × AtTop top tf)
    ⊎ ((0 < r) × Stable brk s.next_cr3 s.rsp0 s × ((proc_at s s.current).tf_rsp ≡ r))

Picks-alive :
    (s : Sched) (next : ℕ)
    → (proc_at s s.current).alive ≡ true
    → Picks s s.current 8 s.current next
    → (proc_at s next).alive ≡ true
Picks-alive s next live (inl (k, lt, at, can, before)) = and-left _ _ can
Picks-alive s next live (inr (at, before)) = ap (λ i. (proc_at s i).alive) at ∙ live

Switched-Resumes :
    (brk cr3 top tf r : ℕ) (s s' : Sched)
    → Stable brk cr3 top s
    → AtTop top tf
    → Switched tf s r s'
    → Resumes brk cr3 top tf (r, s')
unfolding Resumes
Switched-Resumes brk cr3 top tf r s s' h at w =
    let live : (proc_at s' s'.current).alive ≡ true =
      w.same_alive s'.current ∙ Picks-alive s s'.current h.alive w.picks in
    let frames : (pid : ℕ) → OnStack (proc_at s' pid) = λ pid. elim (ℕ_discrete s.current pid) [
      | yes same ↦ λ live'.
          let saved : (proc_at s' pid).tf_rsp ≡ tf =
            ap (λ i. (proc_at s' i).tf_rsp) (sym same) ∙ w.saves in
          let own_stack : (proc_at s' pid).kstack_top ≡ top =
            w.same_stacks pid ∙ ap (λ i. (proc_at s i).kstack_top) (sym same) ∙ sym h.stack in
          rw (saved, own_stack) at
      | no differ ↦ λ live'.
          rw (w.other_frames pid differ, w.same_stacks pid)
            (h.frames pid (sym (w.same_alive pid) ∙ live'))
    ] in
    let fences : Fenced brk s' = same_stacks-Fenced brk s s' w.same_alive w.same_stacks h.fences in
    elim (ℕ_discrete s'.current s.current) [
      | yes same ↦
          let (zero_r, root, trap) = w.stays same in
          inl (
            zero_r,
            record {
              table = w.table;
              started = w.on ∙ h.started;
              alive = live;
              here = h.here ∙ sym (w.same_cr3 s.current) ∙ ap (λ i. (proc_at s' i).cr3) (sym same);
              stack =
                  h.stack
                  ∙ sym (w.same_stacks s.current)
                  ∙ ap (λ i. (proc_at s' i).kstack_top) (sym same);
              trap = trap ∙ h.trap;
              frames = frames;
              fences = fences;
            },
            at,
          )
      | no differ ↦
          let (loaded, root, trap) = w.loads differ in
          let kept : (proc_at s' s'.current).tf_rsp ≡ (proc_at s s'.current).tf_rsp =
            w.other_frames s'.current (λ e. differ (sym e)) in
          let positive : 0 < r =
            subst (λ n. 0 < n) (kept ∙ sym loaded) (omega (arith, (frames s'.current live).2)) in
          inr (
            positive,
            record {
              table = w.table;
              started = w.on ∙ h.started;
              alive = live;
              here = root ∙ sym (w.same_cr3 s'.current);
              stack = trap ∙ sym (w.same_stacks s'.current);
              trap = refl;
              frames = frames;
              fences = fences;
            },
            kept ∙ sym loaded,
          )
    ]

pub yield-Resumes :
    (brk cr3 top tf : ℕ) (s : Sched)
    → Stable brk cr3 top s
    → AtTop top tf
    → Resumes brk cr3 top tf (yield_from_syscall tf s)
yield-Resumes brk cr3 top tf s h at = elim (yield-cases tf s) [
  | inl off ↦ subst (Resumes brk cr3 top tf) (sym off) (unfold Resumes in inl (refl, h, at))
  | inr on ↦ subst (Resumes brk cr3 top tf) (sym on) (
      Switched-Resumes brk cr3 top tf (switch_from tf s).0 s (switch_from tf s).1 h at
        (switch-Switched tf s h.table))
]

pub on_timer_irq-Resumes :
    (brk cr3 top tf : ℕ) (s : Sched) (out : ℕ × Sched)
    → Stable brk cr3 top s
    → AtTop top tf
    → on_timer_irq tf s ≡ done out
    → Resumes brk cr3 top tf out
on_timer_irq-Resumes brk cr3 top tf s out h at made =
    Switched-Resumes brk cr3 top tf out.0 s out.1 h at
      (on_timer_irq-Switched tf s out h.table h.started made)

-- A timer interrupt keeps the bound on the endpoints that capabilities name.
pub on_timer_irq-UpTo :
    (b tf : ℕ) (s : Sched) (out : ℕ × Sched)
    → s.inited ≡ true
    → SchedUpTo b s
    → on_timer_irq tf s ≡ done out
    → SchedUpTo b out.1
on_timer_irq-UpTo b tf s out on h made =
    let w = on_timer_irq-Switched tf s out h.table on made in
    same_caps-UpTo b s out.1 w.table w.same_caps h
