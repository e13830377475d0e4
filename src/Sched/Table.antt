-- ===== src/Sched/Table.antt =====
-- Spawning, blocking and waking in kernel/src/sched.rs.
use mantra_os.Common.{
  ℕ, zero, suc, ◌+◌, ◌<◌, ◌≡◌, ◌≢◌, inl, inr, refl, sym, ap, subst, ◌∙◌, Bool, true, false, ◌&&◌,
  not, ◌==◌, List, [], ◌∷◌, none, some, Bool-cases, Option-cases, length, get_or, length-set,
  set-out_of_range, arith,
}
use mathlib.Core.Bool.{false≢true}
use native.Mathlib.Decide.{ℕ_discrete, dec_lt}
use mantra_os.Sched.{
  Sched, Proc, empty_proc, new_proc, proc_at, set_proc, can_run, free_slot, spawn_proc,
  other_runnable, has_other_runnable, block_current_on_ep, switch_from, yield_from_syscall,
}
use mantra_os.Sched.Pick.{runs, Picks}
use mantra_os.Sched.Fair.{Picks-gap}
use mantra_os.Sched.Switch.{IsTable, Switched, switch-Switched, proc_at-set_self, proc_at-set_ne}

-- The first slot, `j` places from the start, whose process is not alive.
abbrev pub FirstFree : List Proc → ℕ → Type 0
FirstFree ps j =
    (j < length ps)
    × ((get_or ps j empty_proc).alive ≡ false)
    × ((m : ℕ) → m < j → (get_or ps m empty_proc).alive ≡ true)

free_slot-first :
    (ps : List Proc) (i pid : ℕ)
    → free_slot i ps ≡ some pid
    → (j : ℕ) × (pid ≡ i + j) × FirstFree ps j
unfolding free_slot
free_slot-first [] i pid e = absurd (ground arith)
free_slot-first (p ∷ ps) i pid e = elim (Bool-cases p.alive) [
  | inl busy ↦
      let (j, at, first) = free_slot-first ps (i + 1) pid (ground arith) in
      (
        suc j,
        omega arith,
        (omega arith, first.1, elim [ zero ↦ λ h. busy | suc m ↦ λ h. first.2 m (omega arith) ]),
      )
  | inr free ↦ (0, ground arith, (omega arith, free, λ m h. absurd (omega arith)))
]

free_slot-none :
    (ps : List Proc) (i j : ℕ)
    → free_slot i ps ≡ none
    → j < length ps
    → (get_or ps j empty_proc).alive ≡ true
unfolding free_slot
free_slot-none [] i j e h = absurd (omega arith)
free_slot-none (p ∷ ps) i zero e h = ground arith
free_slot-none (p ∷ ps) i (suc j) e h = ground (arith, free_slot-none ps (i + 1) j)

-- What a spawn that finds the slot `pid` makes of the table.
pub record Spawned (tf_rsp kstack_top cr3 : ℕ) (s : Sched) (pid : ℕ) (s' : Sched) : Type 0 where
  pub slot : FirstFree s.procs pid
  pub fresh : proc_at s' pid ≡ new_proc tf_rsp kstack_top cr3
  pub others : (other : ℕ) → pid ≢ other → proc_at s' other ≡ proc_at s other
  pub table : IsTable s'

new_caps : (tf_rsp kstack_top cr3 : ℕ) → length (new_proc tf_rsp kstack_top cr3).caps ≡ 32
new_caps tf_rsp kstack_top cr3 = refl

pub set_proc-IsTable :
    (s : Sched) (pid : ℕ) (p : Proc) → IsTable s → length p.caps ≡ 32 → IsTable (set_proc s pid p)
set_proc-IsTable s pid p v h = record {
  procs = length-set s.procs pid p ∙ v.procs;
  current = v.current;
  caps = λ other. elim (ℕ_discrete pid other) [
    | yes same ↦ elim (dec_lt pid 8) [
      | yes lt ↦
          rw (← same) (ap (λ q. length q.caps) (proc_at-set_self s pid p (rw v.procs lt)) ∙ h)
      | no ge ↦
          ap (λ l. length (get_or l other empty_proc).caps)
            (set-out_of_range s.procs pid p (omega (arith, v.procs)))
          ∙ v.caps other
    ]
    | no differ ↦ ap (λ q. length q.caps) (proc_at-set_ne s pid other p differ) ∙ v.caps other
  ];
}

-- With a well-formed table, a spawn that gives a process number takes the lowest slot whose process
-- is not alive, puts there a new process with the given frame, stack and address space and an empty
-- capability table, and changes no other slot; the table stays well formed.
pub spawn-Spawned :
    (tf_rsp kstack_top cr3 pid : ℕ) (s s' : Sched)
    → IsTable s
    → spawn_proc tf_rsp kstack_top cr3 s ≡ (some pid, s')
    → Spawned tf_rsp kstack_top cr3 s pid s'
unfolding spawn_proc
spawn-Spawned tf_rsp kstack_top cr3 pid s s' v e = elim (Option-cases (free_slot 0 s.procs)) [
  | inl full ↦ absurd (ground arith)
  | inr (at, found) ↦
      let (j, same, first) = free_slot-first s.procs 0 at found in
      let at_pid : at ≡ pid = ground arith in
      let slot_pid : j ≡ pid = omega arith in
      let new : set_proc s pid (new_proc tf_rsp kstack_top cr3) ≡ s' = ground arith in
      let first' : FirstFree s.procs pid = subst (FirstFree s.procs) slot_pid first in
      subst (Spawned tf_rsp kstack_top cr3 s pid) new (record {
        slot = first';
        fresh = proc_at-set_self s pid (new_proc tf_rsp kstack_top cr3) first'.0;
        others = λ other differ. proc_at-set_ne s pid other (new_proc tf_rsp kstack_top cr3) differ;
        table =
            set_proc-IsTable s pid (new_proc tf_rsp kstack_top cr3) v
              (new_caps tf_rsp kstack_top cr3);
      })
]

-- A spawn without an answer changes nothing, and happens only when all eight processes are alive.
pub spawn-refused :
    (tf_rsp kstack_top cr3 pid : ℕ) (s s' : Sched)
    → IsTable s
    → pid < 8
    → spawn_proc tf_rsp kstack_top cr3 s ≡ (none, s')
    → (s' ≡ s) × ((proc_at s pid).alive ≡ true)
unfolding spawn_proc
spawn-refused tf_rsp kstack_top cr3 pid s s' v h e = elim (Option-cases (free_slot 0 s.procs)) [
  | inl full ↦ (ground arith, free_slot-none s.procs 0 pid full (omega (arith, v.procs)))
  | inr (at, found) ↦ absurd (ground arith)
]

-- Another process than `cur`, `j` places from the start, that can run.
other_runnable-found :
    (ps : List Proc) (i cur : ℕ)
    → other_runnable cur i ps ≡ true
    → (j : ℕ) × (j < length ps) × (i + j ≢ cur) × (can_run (get_or ps j empty_proc) ≡ true)
unfolding other_runnable
other_runnable-found [] i cur e = absurd (ground arith)
other_runnable-found (p ∷ ps) i cur e = elim (Bool-cases (not (i == cur) && can_run p)) [
  | inl here ↦ (0, omega arith, ground arith, ground arith)
  | inr next ↦
      let (j, lt, ne, can) = other_runnable-found ps (i + 1) cur (ground arith) in
      (suc j, omega arith, λ q. ne (omega arith), can)
]

and-false : (b : Bool) → (b && false) ≡ false
and-false true = refl
and-false false = refl

-- A pick for a process that cannot run itself, where another one can.
Picks-other :
    (s : Sched) (cur pid next : ℕ)
    → cur < 8
    → pid < 8
    → pid ≢ cur
    → runs s pid ≡ true
    → runs s cur ≡ false
    → Picks s cur 8 cur next
    → (next ≢ cur) × (runs s next ≡ true)
Picks-other s cur pid next hc hp ne can idle (inl (k, lt, at, go, before)) =
    (λ q. false≢true (sym idle ∙ ap (runs s) (sym q) ∙ go), go)
Picks-other s cur pid next hc hp ne can idle (inr (at, before)) =
    absurd (elim (Picks-gap s cur pid next hc hp can (inr (at, before))) [
      | inl same ↦ ne (sym same ∙ at)
      | inr closer ↦ absurd (omega arith)
    ])

-- With a well-formed table in which another process can run, blocking the current process on an
-- endpoint and switching leads to a process that is not the blocked one and that can run: the
-- answer is that one's saved frame, and the blocked process cannot run and is recorded as blocked
-- on the endpoint.
pub block_then_switch :
    (tf ep_id : ℕ) (s : Sched)
    → IsTable s
    → has_other_runnable s ≡ true
    → let out = switch_from tf (block_current_on_ep ep_id s) in
      (out.1.current ≢ s.current)
      × (runs s out.1.current ≡ true)
      × (out.0 ≡ (proc_at s out.1.current).tf_rsp)
      × (runs out.1 s.current ≡ false)
      × ((proc_at out.1 s.current).blocked_ep ≡ ep_id)
unfolding has_other_runnable block_current_on_ep
block_then_switch tf ep_id s v e =
    let cur : ℕ = s.current in
    let blocked : Proc = record (proc_at s cur) { runnable = false; blocked_ep = ep_id } in
    let b : Sched = set_proc s cur blocked in
    let stored : proc_at b cur ≡ blocked = proc_at-set_self s cur blocked (rw v.procs v.current) in
    let idle : runs b cur ≡ false = ap can_run stored ∙ and-false (proc_at s cur).alive in
    let others = λ (i : ℕ) (h : cur ≢ i). proc_at-set_ne s cur i blocked h in
    let vb : IsTable b = set_proc-IsTable s cur blocked v (v.caps cur) in
    let w : Switched tf b (switch_from tf b).0 (switch_from tf b).1 = switch-Switched tf b vb in
    let (j, lt, ne, can) = other_runnable-found s.procs 0 cur e in
    let can_b : runs b j ≡ true = ap can_run (others j (λ q. ne (omega arith))) ∙ can in
    let next =
      Picks-other b cur j (switch_from tf b).1.current v.current (omega (arith, v.procs))
        (λ q. ne (omega arith)) can_b idle w.picks in
    (
      next.0,
      ap can_run (sym (others (switch_from tf b).1.current (λ q. next.0 (sym q)))) ∙ next.1,
      (w.loads next.0).0
          ∙ ap (λ p. p.tf_rsp) (others (switch_from tf b).1.current (λ q. next.0 (sym q))),
      w.same_runs cur ∙ idle,
      w.same_blocked cur ∙ ap (λ p. p.blocked_ep) stored,
    )

pub block_then_yield :
    (tf ep_id : ℕ) (s : Sched)
    → s.inited ≡ true
    → yield_from_syscall tf (block_current_on_ep ep_id s)
      ≡ switch_from tf (block_current_on_ep ep_id s)
unfolding yield_from_syscall block_current_on_ep
block_then_yield tf ep_id s on = rw (on) refl
