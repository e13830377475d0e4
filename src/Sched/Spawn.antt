-- ===== src/Sched/Spawn.antt =====
-- A spawn in kernel/src/sched.rs, against the bound on the endpoints that capabilities name.
use mantra_os.Common.{ℕ, ◌≡◌, inl, inr, sym, ap, subst, Option, none, Option-cases, arith}
use native.Mathlib.Decide.{ℕ_discrete}
use mantra_os.Sched.{Sched, spawn_proc, new_proc}
use mantra_os.Sched.Table.{Spawned, spawn-Spawned}
use mantra_os.Sched.Confine.{CapsUpTo, SchedUpTo, cap_in-replicate}

new_proc-UpTo : (b tf_rsp kstack_top cr3 : ℕ) → CapsUpTo b (new_proc tf_rsp kstack_top cr3)
new_proc-UpTo b tf_rsp kstack_top cr3 cap ep e = cap_in-replicate cap ep b e

Spawned-UpTo :
    (b tf_rsp kstack_top cr3 pid : ℕ) (s s' : Sched)
    → SchedUpTo b s
    → Spawned tf_rsp kstack_top cr3 s pid s'
    → SchedUpTo b s'
Spawned-UpTo b tf_rsp kstack_top cr3 pid s s' h w = record {
  table = w.table;
  caps = λ other. elim (ℕ_discrete pid other) [
    | yes same ↦
        rw (← same) (subst (CapsUpTo b) (sym w.fresh) (new_proc-UpTo b tf_rsp kstack_top cr3))
    | no differ ↦ subst (CapsUpTo b) (sym (w.others other differ)) (h.caps other)
  ];
}

pub spawn_proc-none :
    (tf_rsp kstack_top cr3 : ℕ) (s : Sched)
    → (spawn_proc tf_rsp kstack_top cr3 s).0 ≡ none
    → s ≡ (spawn_proc tf_rsp kstack_top cr3 s).1
unfolding spawn_proc
spawn_proc-none tf_rsp kstack_top cr3 s e = ground arith

pub spawn_proc-UpTo :
    (b tf_rsp kstack_top cr3 : ℕ) (s : Sched)
    → SchedUpTo b s
    → SchedUpTo b (spawn_proc tf_rsp kstack_top cr3 s).1
spawn_proc-UpTo b tf_rsp kstack_top cr3 s h =
    let out = spawn_proc tf_rsp kstack_top cr3 s in
    elim (Option-cases out.0) [
      | inl full ↦ subst (SchedUpTo b) (spawn_proc-none tf_rsp kstack_top cr3 s full) h
      | inr (pid, found) ↦ Spawned-UpTo b tf_rsp kstack_top cr3 pid s out.1 h (
          spawn-Spawned tf_rsp kstack_top cr3 pid s out.1 h.table
            (ap {B = Option ℕ × Sched} (λ t. (t, out.1)) found))
    ]
