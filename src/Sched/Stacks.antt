-- ===== src/Sched/Stacks.antt =====
-- Where the processes of kernel/src/sched.rs save their frames: each at the top of its own kernel
-- stack, and traps of the current process go to its stack.
use mantra_os.Common.{
  ℕ, ◌+◌, ◌*◌, ◌<◌, ◌≤◌, ◌≡◌, ◌≢◌, inl, inr, refl, sym, ap, subst, ◌∙◌, true, false, ◌⊎◌, ◌||◌, leb,
  length, length-set, zero, suc, ◌==◌, Bool-cases, Option-cases, Option, some, List, arith,
}
use native.Mathlib.Decide.{ℕ_discrete}
use mathlib.Core.Bool.{false≢true}
use mantra_os.Sched.{
  Sched, Proc, install_first, set_rsp0, max_procs, proc_at, set_proc, wake, block_current_on_ep,
  cap_alloc_for, cap_alloc_current, fill_slot, spawn_proc,
}
use mantra_os.Sched.Switch.{IsTable, field-set_proc_any}
use mantra_os.Sched.Table.{set_proc-IsTable, Spawned, spawn-Spawned}
use mantra_os.Sched.Fences.{
  kstack_bytes, Fenced, same_stacks-Fenced, one_more-Fenced, later_slot, first-Fenced,
}
use mantra_os.Sched.Spawn.{spawn_proc-none}
use mantra_os.Sched.Caps.{fill_slot-set}
use mantra_os.Sched.Confine.{wake-cases, install_first-UpTo}

-- The size of a trap frame.
abbrev pub frame_bytes : ℕ
frame_bytes = 20 * 8

-- A frame ends in the last 16 bytes below `top`: the processor rounds the stack pointer down to 16
-- bytes before it pushes. It is not near address 0.
abbrev pub AtTop : ℕ → ℕ → Type 0
AtTop top tf = (tf + frame_bytes ≤ top) × (top < tf + frame_bytes + 16) × (16 ≤ tf)

-- A live process's frame is at the top of its kernel stack.
abbrev pub OnStack : Proc → Type 0
OnStack p = p.alive ≡ true → AtTop p.kstack_top p.tf_rsp

-- A started scheduler whose current process is alive, in its address space `cr3`, with the stack for
-- traps set to `top`, the top of its kernel stack, and with every live process's frame on its own
-- stack, which ends at or below `brk` and is apart from the stacks of the others.
pub record Stable (brk cr3 top : ℕ) (s : Sched) : Type 0 where
  pub table : IsTable s
  pub started : s.inited ≡ true
  pub alive : (proc_at s s.current).alive ≡ true
  pub here : cr3 ≡ (proc_at s s.current).cr3
  pub stack : top ≡ (proc_at s s.current).kstack_top
  pub trap : s.rsp0 ≡ top
  pub frames : (pid : ℕ) → OnStack (proc_at s pid)
  pub fences : Fenced brk s

-- A write to a process that keeps these four fields.
set_proc-Stable :
    (brk cr3 top : ℕ) (s : Sched) (pid : ℕ) (p : Proc)
    → IsTable (set_proc s pid p)
    → p.alive ≡ (proc_at s pid).alive
    → p.cr3 ≡ (proc_at s pid).cr3
    → p.kstack_top ≡ (proc_at s pid).kstack_top
    → p.tf_rsp ≡ (proc_at s pid).tf_rsp
    → Stable brk cr3 top s
    → Stable brk cr3 top (set_proc s pid p)
set_proc-Stable brk cr3 top s pid p t ea ec ek ef h =
    let alive = λ (i : ℕ). field-set_proc_any (λ q. q.alive) s pid i p ea in
    let roots = λ (i : ℕ). field-set_proc_any (λ q. q.cr3) s pid i p ec in
    let stacks = λ (i : ℕ). field-set_proc_any (λ q. q.kstack_top) s pid i p ek in
    let saves = λ (i : ℕ). field-set_proc_any (λ q. q.tf_rsp) s pid i p ef in
    record {
      table = t;
      started = h.started;
      alive = alive s.current ∙ h.alive;
      here = h.here ∙ sym (roots s.current);
      stack = h.stack ∙ sym (stacks s.current);
      trap = h.trap;
      frames = λ i live. let own = h.frames i (sym (alive i) ∙ live) in rw (saves i, stacks i) own;
      fences = same_stacks-Fenced brk s (set_proc s pid p) alive stacks h.fences;
    }

pub wake-Stable :
    (brk cr3 top pid : ℕ) (s : Sched) → Stable brk cr3 top s → Stable brk cr3 top (wake pid s)
wake-Stable brk cr3 top pid s h = elim (wake-cases pid s) [
  | inl same ↦ subst (Stable brk cr3 top) (sym same) h
  | inr woken ↦ subst (Stable brk cr3 top) (sym woken) (
      set_proc-Stable brk cr3 top s pid (record (proc_at s pid) { runnable = true; blocked_ep = 0 })
        (set_proc-IsTable s pid _ h.table (h.table.caps pid)) refl refl refl refl h)
]

pub block-Stable :
    (brk cr3 top ep : ℕ) (s : Sched)
    → Stable brk cr3 top s
    → Stable brk cr3 top (block_current_on_ep ep s)
unfolding block_current_on_ep
block-Stable brk cr3 top ep s h =
    set_proc-Stable brk cr3 top s s.current
      (record (proc_at s s.current) { runnable = false; blocked_ep = ep })
      (set_proc-IsTable s s.current _ h.table (h.table.caps s.current)) refl refl refl refl h

cap_alloc_for-cases :
    (pid ep : ℕ) (s : Sched)
    → ((cap_alloc_for pid ep s).1 ≡ s)
      ⊎ ((i : ℕ) × (caps : List ℕ) × (fill_slot 0 ep (proc_at s pid).caps ≡ some (i, caps))
          × ((cap_alloc_for pid ep s).1 ≡ set_proc s pid (record (proc_at s pid) { caps = caps })))
unfolding cap_alloc_for
cap_alloc_for-cases pid ep s = elim (Bool-cases (leb max_procs pid || ep == 0)) [
  | inl bad ↦ inl (ground arith)
  | inr fine ↦ elim (Option-cases (fill_slot 0 ep (proc_at s pid).caps)) [
    | inl full ↦ inl (ground arith)
    | inr ((i, caps), found) ↦ inr (i, caps, found, ground arith)
  ]
]

pub cap_alloc_for-Stable :
    (brk cr3 top pid ep : ℕ) (s : Sched)
    → Stable brk cr3 top s
    → Stable brk cr3 top (cap_alloc_for pid ep s).1
cap_alloc_for-Stable brk cr3 top pid ep s h = elim (cap_alloc_for-cases pid ep s) [
  | inl same ↦ subst (Stable brk cr3 top) (sym same) h
  | inr (i, caps, found, filled) ↦
      let old : List ℕ = (proc_at s pid).caps in
      let (k, at, lt, unused, same) = fill_slot-set old 0 ep i caps found in
      let size : length caps ≡ 32 = ap length same ∙ length-set old k ep ∙ h.table.caps pid in
      subst (Stable brk cr3 top) (sym filled) (
        set_proc-Stable brk cr3 top s pid (record (proc_at s pid) { caps = caps })
          (set_proc-IsTable s pid _ h.table size) refl refl refl refl h)
]

pub cap_alloc_current-Stable :
    (brk cr3 top ep : ℕ) (s : Sched)
    → Stable brk cr3 top s
    → Stable brk cr3 top (cap_alloc_current ep s).1
unfolding cap_alloc_current
cap_alloc_current-Stable brk cr3 top ep s h = cap_alloc_for-Stable brk cr3 top s.current ep s h

spawn_proc-same :
    (tf_rsp kstack_top root : ℕ) (s : Sched)
    → let s' = (spawn_proc tf_rsp kstack_top root s).1 in
      (s'.current ≡ s.current) × (s'.inited ≡ s.inited) × (s'.rsp0 ≡ s.rsp0)
unfolding spawn_proc
spawn_proc-same tf_rsp kstack_top root s = ground arith

Spawned-Stable :
    (brk cr3 top tf_rsp kstack_top root pid : ℕ) (s s' : Sched)
    → AtTop kstack_top tf_rsp
    → brk + kstack_bytes ≤ kstack_top
    → Stable brk cr3 top s
    → Spawned tf_rsp kstack_top root s pid s'
    → (s'.current ≡ s.current) × (s'.inited ≡ s.inited) × (s'.rsp0 ≡ s.rsp0)
    → Stable kstack_top cr3 top s'
Spawned-Stable brk cr3 top tf_rsp kstack_top root pid s s' own room h w (cur, on, trap) =
    let other : pid ≢ s.current =
      λ e. false≢true (sym w.slot.1 ∙ ap (λ i. (proc_at s i).alive) e ∙ h.alive) in
    let kept : proc_at s' s'.current ≡ proc_at s s.current =
      ap (proc_at s') cur ∙ w.others s.current other in
    record {
      table = w.table;
      started = on ∙ h.started;
      alive = ap (λ p. p.alive) kept ∙ h.alive;
      here = h.here ∙ sym (ap (λ p. p.cr3) kept);
      stack = h.stack ∙ sym (ap (λ p. p.kstack_top) kept);
      trap = trap ∙ h.trap;
      frames = λ i. elim (ℕ_discrete pid i) [
        | yes same ↦ subst OnStack (sym w.fresh ∙ ap (proc_at s') same) (λ live. own)
        | no differ ↦ subst OnStack (sym (w.others i differ)) (h.frames i)
      ];
      fences =
          one_more-Fenced brk kstack_top pid s s' room (ap (λ p. p.kstack_top) w.fresh) w.others
            h.fences;
    }

higher-Stable :
    (brk limit cr3 top : ℕ) (s : Sched)
    → brk + kstack_bytes ≤ limit
    → Stable brk cr3 top s
    → Stable limit cr3 top s
higher-Stable brk limit cr3 top s room h = record {
  table = h.table;
  started = h.started;
  alive = h.alive;
  here = h.here;
  stack = h.stack;
  trap = h.trap;
  frames = h.frames;
  fences = record {
    below = λ pid live. omega (arith, h.fences.below pid live, room);
    apart = h.fences.apart;
  };
}

-- A new process with its frame on its stack, which is above the others.
pub spawn_proc-Stable :
    (brk cr3 top tf_rsp kstack_top root : ℕ) (s : Sched)
    → AtTop kstack_top tf_rsp
    → brk + kstack_bytes ≤ kstack_top
    → Stable brk cr3 top s
    → Stable kstack_top cr3 top (spawn_proc tf_rsp kstack_top root s).1
spawn_proc-Stable brk cr3 top tf_rsp kstack_top root s own room h =
    let out = spawn_proc tf_rsp kstack_top root s in
    elim (Option-cases out.0) [
      | inl full ↦
          subst (Stable kstack_top cr3 top) (spawn_proc-none tf_rsp kstack_top root s full)
            (higher-Stable brk kstack_top cr3 top s room h)
      | inr (pid, found) ↦
          let w : Spawned tf_rsp kstack_top root s pid out.1 =
            spawn-Spawned tf_rsp kstack_top root pid s out.1 h.table
              (ap {B = Option ℕ × Sched} (λ t. (t, out.1)) found) in
          Spawned-Stable brk cr3 top tf_rsp kstack_top root pid s out.1 own room h w
            (spawn_proc-same tf_rsp kstack_top root s)
    ]

first-OnStack :
    (tf_rsp cr3 : ℕ) (s : Sched)
    → 16 ≤ tf_rsp
    → (pid : ℕ) → OnStack (proc_at (install_first tf_rsp (tf_rsp + frame_bytes) cr3 s) pid)
unfolding install_first
first-OnStack tf_rsp cr3 s high zero live = (omega arith, omega arith, high)
first-OnStack tf_rsp cr3 s high (suc i) live = absurd (false≢true (sym (later_slot 7 i) ∙ live))

-- The first process.
pub install_first-Stable :
    (tf_rsp cr3 : ℕ) (s : Sched)
    → 16 ≤ tf_rsp
    → let top = tf_rsp + frame_bytes in
      Stable top cr3 top (set_rsp0 top (install_first tf_rsp top cr3 s))
unfolding install_first
install_first-Stable tf_rsp cr3 s high = record {
  table = record {
    procs = refl;
    current = omega arith;
    caps = (install_first-UpTo tf_rsp (tf_rsp + frame_bytes) cr3 s).table.caps;
  };
  started = refl;
  alive = refl;
  here = refl;
  stack = refl;
  trap = refl;
  frames = first-OnStack tf_rsp cr3 s high;
  fences = first-Fenced tf_rsp (tf_rsp + frame_bytes) cr3 s;
}

pub install_first-frame :
    (tf_rsp top cr3 : ℕ) (s : Sched)
    → let s' = install_first tf_rsp top cr3 s in (proc_at s' s'.current).tf_rsp ≡ tf_rsp
unfolding install_first
install_first-frame tf_rsp top cr3 s = refl
