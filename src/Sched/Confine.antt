-- ===== src/Sched/Confine.antt =====
-- A bound on the endpoints that the capability tables of kernel/src/sched.rs name.
use mantra_os.Common.{
  ℕ, replicate, zero, suc, ◌-◌, get_or, length, List, ◌≤◌, ◌≡◌, ◌⊎◌, inl, inr, refl, sym, ap, subst,
  ◌∙◌, true, false, leb, Option, none, some, Bool-cases, Option-cases, arith,
}
use mathlib.Core.Option.{some-injective}
use native.Mathlib.Decide.{ℕ_discrete}
use native.Mathlib.Nat.{le_trans}
use mantra_os.Sched.{
  Sched, Proc, max_procs, proc_at, set_proc, cap_in, install_first, empty_proc, cap_alloc_for,
  cap_alloc_current, cap_lookup_current, wake, block_current_on_ep, yield_from_syscall, switch_from,
}
use mantra_os.Sched.Switch.{IsTable, Switched, switch-Switched, field-set_proc_any}
use mantra_os.Sched.Table.{set_proc-IsTable}
use mantra_os.Sched.Caps.{Minted, cap_alloc-Minted}

-- Each capability of the process names an endpoint up to `b`.
abbrev pub CapsUpTo : ℕ → Proc → Type 0
CapsUpTo b p = (cap ep : ℕ) → cap_in p.caps cap ≡ some ep → ep ≤ b

pub record SchedUpTo (b : ℕ) (s : Sched) : Type 0 where
  pub table : IsTable s
  pub caps : (pid : ℕ) → CapsUpTo b (proc_at s pid)

pub same_caps-UpTo :
    (b : ℕ) (s s' : Sched)
    → IsTable s'
    → ((pid : ℕ) → (proc_at s' pid).caps ≡ (proc_at s pid).caps)
    → SchedUpTo b s
    → SchedUpTo b s'
same_caps-UpTo b s s' t same h = record {
  table = t;
  caps = λ pid cap ep e. h.caps pid cap ep (sym (ap (λ c. cap_in c cap) (same pid)) ∙ e);
}

set_proc-same_caps :
    (s : Sched) (pid other : ℕ) (p : Proc)
    → p.caps ≡ (proc_at s pid).caps
    → (proc_at (set_proc s pid p) other).caps ≡ (proc_at s other).caps
set_proc-same_caps s pid other p e = field-set_proc_any (λ q. q.caps) s pid other p e

woken-UpTo :
    (b pid : ℕ) (s : Sched)
    → SchedUpTo b s
    → SchedUpTo b (set_proc s pid (record (proc_at s pid) { runnable = true; blocked_ep = 0 }))
woken-UpTo b pid s h =
    let p : Proc = record (proc_at s pid) { runnable = true; blocked_ep = 0 } in
    same_caps-UpTo b s (set_proc s pid p) (set_proc-IsTable s pid p h.table (h.table.caps pid))
      (λ other. set_proc-same_caps s pid other p refl) h

pub wake-cases :
    (pid : ℕ) (s : Sched)
    → (wake pid s ≡ s)
      ⊎ (wake pid s ≡ set_proc s pid (record (proc_at s pid) { runnable = true; blocked_ep = 0 }))
unfolding wake
wake-cases pid s = elim (Bool-cases (leb max_procs pid)) [
  | inl out ↦ inl (ground arith)
  | inr in_table ↦ elim (Bool-cases (proc_at s pid).alive) [
    | inl alive ↦ inr (ground arith)
    | inr dead ↦ inl (ground arith)
  ]
]

pub wake-UpTo : (b pid : ℕ) (s : Sched) → SchedUpTo b s → SchedUpTo b (wake pid s)
wake-UpTo b pid s h = elim (wake-cases pid s) [
  | inl same ↦ subst (SchedUpTo b) (sym same) h
  | inr woken ↦ subst (SchedUpTo b) (sym woken) (woken-UpTo b pid s h)
]

pub block-UpTo : (b ep : ℕ) (s : Sched) → SchedUpTo b s → SchedUpTo b (block_current_on_ep ep s)
unfolding block_current_on_ep
block-UpTo b ep s h =
    same_caps-UpTo b s (block_current_on_ep ep s)
      (set_proc-IsTable s s.current
        (record (proc_at s s.current) { runnable = false; blocked_ep = ep }) h.table
        (h.table.caps s.current))
      (λ other.
        set_proc-same_caps s s.current other
          (record (proc_at s s.current) { runnable = false; blocked_ep = ep }) refl)
      h

pub yield-cases :
    (tf : ℕ) (s : Sched)
    → (yield_from_syscall tf s ≡ (0, s)) ⊎ (yield_from_syscall tf s ≡ switch_from tf s)
unfolding yield_from_syscall
yield-cases tf s = elim (Bool-cases s.inited) [
  | inl on ↦ inr (ground arith)
  | inr off ↦ inl (ground arith)
]

switch-UpTo : (b tf : ℕ) (s : Sched) → SchedUpTo b s → SchedUpTo b (switch_from tf s).1
switch-UpTo b tf s h =
    let w : Switched tf s (switch_from tf s).0 (switch_from tf s).1 =
      switch-Switched tf s h.table in
    same_caps-UpTo b s (switch_from tf s).1 w.table w.same_caps h

pub yield-UpTo : (b tf : ℕ) (s : Sched) → SchedUpTo b s → SchedUpTo b (yield_from_syscall tf s).1
yield-UpTo b tf s h = elim (yield-cases tf s) [
  | inl off ↦ subst (SchedUpTo b) (sym (ap (λ t. t.1) off)) h
  | inr on ↦ subst (SchedUpTo b) (sym (ap (λ t. t.1) on)) (switch-UpTo b tf s h)
]

cap_alloc_for-none : (pid ep : ℕ) (s s' : Sched) → cap_alloc_for pid ep s ≡ (none, s') → s ≡ s'
unfolding cap_alloc_for
cap_alloc_for-none pid ep s s' e = ground arith

Minted-CapsUpTo :
    (b pid ep cap : ℕ) (s s' : Sched)
    → ep ≤ b
    → SchedUpTo b s
    → Minted pid ep cap s s'
    → (other : ℕ) → CapsUpTo b (proc_at s' other)
Minted-CapsUpTo b pid ep cap s s' le h m other c e q = elim (ℕ_discrete pid other) [
  | yes same ↦
      let q' : cap_in (proc_at s' pid).caps c ≡ some e = rw same q in
      elim (ℕ_discrete c cap) [
        | yes new ↦
            let named : some ep ≡ some e =
              sym m.names ∙ ap (cap_in (proc_at s' pid).caps) (sym new) ∙ q' in
            rw (← some-injective ep e named) le
        | no old ↦ h.caps pid c e (sym (m.keeps c old) ∙ q')
      ]
  | no differ ↦ h.caps other c e (sym (ap (λ p. cap_in p.caps c) (m.elsewhere other differ)) ∙ q)
]

pub cap_alloc_for-UpTo :
    (b pid ep : ℕ) (s : Sched) → ep ≤ b → SchedUpTo b s → SchedUpTo b (cap_alloc_for pid ep s).1
cap_alloc_for-UpTo b pid ep s le h =
    let out = cap_alloc_for pid ep s in
    elim (Option-cases out.0) [
      | inl failed ↦
          let same : s ≡ out.1 =
            cap_alloc_for-none pid ep s out.1
              (ap {B = Option ℕ × Sched} (λ t. (t, out.1)) failed) in
          subst (SchedUpTo b) same h
      | inr (cap, made) ↦
          let m : Minted pid ep cap s out.1 =
            cap_alloc-Minted pid ep cap s out.1 h.table
              (ap {B = Option ℕ × Sched} (λ t. (t, out.1)) made) in
          record { table = m.table; caps = Minted-CapsUpTo b pid ep cap s out.1 le h m }
    ]

-- What a capability of the current process names.
pub cap_lookup-UpTo :
    (b cap ep : ℕ) (s : Sched) → SchedUpTo b s → cap_lookup_current cap s ≡ some ep → ep ≤ b
unfolding cap_lookup_current
cap_lookup-UpTo b cap ep s h e = h.caps s.current cap ep (ground arith)

pub SchedUpTo-mono : (b c : ℕ) (s : Sched) → b ≤ c → SchedUpTo b s → SchedUpTo c s
SchedUpTo-mono b c s le h = record {
  table = h.table;
  caps = λ pid cap ep e. le_trans (h.caps pid cap ep e) le;
}

pub cap_alloc_current-UpTo :
    (b ep : ℕ) (s : Sched) → ep ≤ b → SchedUpTo b s → SchedUpTo b (cap_alloc_current ep s).1
unfolding cap_alloc_current
cap_alloc_current-UpTo b ep s le h = cap_alloc_for-UpTo b s.current ep s le h

abbrev none_used : ℕ → List ℕ
none_used n = replicate n 0

unused : (n j : ℕ) → get_or (none_used n) j 0 ≡ 0
unused zero j = refl
unused (suc n) zero = refl
unused (suc n) (suc j) = unused n j

pub cap_in-replicate : (cap ep b : ℕ) → cap_in (none_used 32) cap ≡ some ep → ep ≤ b
cap_in-replicate cap ep b e = absurd (ground (arith, unused 32 (cap - 1)))

absent-UpTo : (n pid b : ℕ) → CapsUpTo b (get_or (replicate n empty_proc) pid empty_proc)
absent-UpTo zero pid b cap ep e = cap_in-replicate cap ep b e
absent-UpTo (suc n) zero b cap ep e = cap_in-replicate cap ep b e
absent-UpTo (suc n) (suc pid) b cap ep e = absent-UpTo n pid b cap ep e

absent-table : (n pid : ℕ) → length (get_or (replicate n empty_proc) pid empty_proc).caps ≡ 32
absent-table zero pid = refl
absent-table (suc n) zero = refl
absent-table (suc n) (suc pid) = absent-table n pid

first-table :
    (tf_rsp kstack_top cr3 pid : ℕ) (s : Sched)
    → length (proc_at (install_first tf_rsp kstack_top cr3 s) pid).caps ≡ 32
unfolding install_first
first-table tf_rsp kstack_top cr3 zero s = refl
first-table tf_rsp kstack_top cr3 (suc pid) s = absent-table 7 pid

first-CapsUpTo :
    (tf_rsp kstack_top cr3 pid : ℕ) (s : Sched)
    → CapsUpTo 0 (proc_at (install_first tf_rsp kstack_top cr3 s) pid)
unfolding install_first
first-CapsUpTo tf_rsp kstack_top cr3 zero s cap ep e = cap_in-replicate cap ep 0 e
first-CapsUpTo tf_rsp kstack_top cr3 (suc pid) s cap ep e = absent-UpTo 7 pid 0 cap ep e

pub install_first-UpTo :
    (tf_rsp kstack_top cr3 : ℕ) (s : Sched) → SchedUpTo 0 (install_first tf_rsp kstack_top cr3 s)
unfolding install_first
install_first-UpTo tf_rsp kstack_top cr3 s = record {
  table = record {
    procs = refl;
    current = omega arith;
    caps = λ pid. first-table tf_rsp kstack_top cr3 pid s;
  };
  caps = λ pid. first-CapsUpTo tf_rsp kstack_top cr3 pid s;
}
