-- ===== src/Sched.antt =====
-- kernel/src/sched.rs: the process table, blocking, the round-robin switch, and each process's
-- capability table.
pub mod Pick
pub mod Switch
pub mod Fair
pub mod Table
pub mod Caps
pub mod Confine
pub mod Spawn
pub mod Fences
pub mod Stacks
pub mod Resume
pub mod Sample
mod Tests
use mantra_os.Common.{
  ℕ, zero, suc, ◌+◌, ◌-◌, ◌%◌, ◌^◌, Bool, true, false, ◌&&◌, ◌||◌, not, ltb, leb, ◌==◌,
  if◌then◌else◌, List, [], ◌∷◌, Option, none, some, length, get_or, set, replicate,
}
use mantra_os.Common.Word.{u64_mod}
use mantra_os.Common.Run.{Run, done, panic, ◌>>=◌, checked_add}

abbrev pub max_procs : ℕ
max_procs = 8

-- The slots of a capability table.
abbrev pub cap_slots : ℕ
cap_slots = 32

-- `Proc`.
pub record Proc : Type 0 where
  pub tf_rsp : ℕ
  pub kstack_top : ℕ
  pub cr3 : ℕ
  pub caps : List ℕ
  pub alive : Bool
  pub runnable : Bool
  pub blocked_ep : ℕ

abbrev pub empty_proc : Proc
empty_proc = record {
  tf_rsp = 0;
  kstack_top = 0;
  cr3 = 0;
  caps = replicate cap_slots 0;
  alive = false;
  runnable = false;
  blocked_ep = 0;
}

abbrev pub new_proc : ℕ → ℕ → ℕ → Proc
new_proc tf_rsp kstack_top cr3 = record {
  tf_rsp = tf_rsp;
  kstack_top = kstack_top;
  cr3 = cr3;
  caps = replicate cap_slots 0;
  alive = true;
  runnable = true;
  blocked_ep = 0;
}

-- The statics of the module, and `TSS0.rsp0` (kernel/src/arch/x86_64/gdt.rs), which a switch sets.
pub record Sched : Type 0 where
  pub inited : Bool
  pub current : ℕ
  pub ticks : ℕ
  pub next_cr3 : ℕ
  pub procs : List Proc
  pub rsp0 : ℕ

abbrev pub boot : Sched
boot = record {
  inited = false;
  current = 0;
  ticks = 0;
  next_cr3 = 0;
  procs = replicate max_procs empty_proc;
  rsp0 = 0;
}

-- `PROCS[pid]`; the source's indices are below 8.
abbrev pub proc_at : Sched → ℕ → Proc
proc_at s pid = get_or s.procs pid empty_proc

abbrev pub set_proc : Sched → ℕ → Proc → Sched
set_proc s pid p = record s { procs = set s.procs pid p }

-- `gdt::set_rsp0`.
abbrev pub set_rsp0 : ℕ → Sched → Sched
set_rsp0 top s = record s { rsp0 = top }

unfoldable pub install_first : ℕ → ℕ → ℕ → Sched → Sched
install_first tf_rsp kstack_top cr3 s = record s {
  procs = new_proc tf_rsp kstack_top cr3 ∷ replicate (max_procs - 1) empty_proc;
  next_cr3 = cr3;
  current = 0;
  inited = true;
}

abbrev pub current_pid : Sched → ℕ
current_pid s = s.current

-- The loop of `spawn_proc` from `pid` on: the first slot whose process is not alive.
pub free_slot : ℕ → List Proc → Option ℕ
free_slot pid [] = none
free_slot pid (p ∷ ps) = if p.alive then free_slot (pid + 1) ps else some pid

pub spawn_proc : ℕ → ℕ → ℕ → Sched → Option ℕ × Sched
spawn_proc tf_rsp kstack_top cr3 s = elim (free_slot 0 s.procs) [
  | none ↦ (none, s)
  | some pid ↦ (some pid, set_proc s pid (new_proc tf_rsp kstack_top cr3))
]

pub proc_cr3 : ℕ → Sched → Option ℕ
proc_cr3 pid s = if leb max_procs pid then none else some (proc_at s pid).cr3

pub proc_tf_rsp : ℕ → Sched → Option ℕ
proc_tf_rsp pid s = if leb max_procs pid then none else some (proc_at s pid).tf_rsp

pub wake : ℕ → Sched → Sched
wake pid s =
    if leb max_procs pid
    then s
    else if (proc_at s pid).alive
    then set_proc s pid (record (proc_at s pid) { runnable = true; blocked_ep = 0 })
    else s

pub block_current_on_ep : ℕ → Sched → Sched
block_current_on_ep ep_id s =
    set_proc s s.current (record (proc_at s s.current) { runnable = false; blocked_ep = ep_id })

-- A process that the switch may pick.
abbrev pub can_run : Proc → Bool
can_run p = p.alive && p.runnable

-- The loop of `has_other_runnable` from `pid` on.
pub other_runnable : ℕ → ℕ → List Proc → Bool
other_runnable cur pid [] = false
other_runnable cur pid (p ∷ ps) = (not (pid == cur) && can_run p) || other_runnable cur (pid + 1) ps

pub has_other_runnable : Sched → Bool
has_other_runnable s = other_runnable s.current 0 s.procs

-- The loop of `pick_next_runnable`, with the rounds left and the variable `next`.
pub pick_from : ℕ → ℕ → ℕ → Sched → ℕ
pick_from zero next cur s = cur
pick_from (suc rounds) next cur s =
    let at = (next + 1) % max_procs in
    let rest = pick_from rounds at cur s in if can_run (proc_at s at) then at else rest

pub pick_next_runnable : ℕ → Sched → ℕ
pick_next_runnable cur s = pick_from max_procs cur cur s

-- The new trap frame pointer, or 0 to stay.
pub switch_from : ℕ → Sched → ℕ × Sched
switch_from cur_tf s =
    let cur = s.current in
    let s1 = set_proc s cur (record (proc_at s cur) { tf_rsp = cur_tf }) in
    let next = pick_next_runnable cur s1 in
    if next == cur then (0, s1) else (
      (proc_at s1 next).tf_rsp,
      record (set_rsp0 (proc_at s1 next).kstack_top s1) {
        next_cr3 = (proc_at s1 next).cr3;
        current = next;
      },
    )

pub yield_from_syscall : ℕ → Sched → ℕ × Sched
yield_from_syscall current_tf s = if not s.inited then (0, s) else switch_from current_tf s

-- The loop of `cap_alloc_for` over a table: the first empty slot's index and the new table.
pub fill_slot : ℕ → ℕ → List ℕ → Option (ℕ × List ℕ)
fill_slot i endpoint_id [] = none
fill_slot i endpoint_id (slot ∷ slots) =
    let rest = fill_slot (i + 1) endpoint_id slots in
    if slot == 0
    then some (i, endpoint_id ∷ slots)
    else elim rest [ none ↦ none | some (j, slots') ↦ some (j, slot ∷ slots') ]

pub cap_alloc_for : ℕ → ℕ → Sched → Option ℕ × Sched
cap_alloc_for pid endpoint_id s =
    if leb max_procs pid || endpoint_id == 0
    then (none, s)
    else elim (fill_slot 0 endpoint_id (proc_at s pid).caps) [
      | none ↦ (none, s)
      | some (i, caps) ↦ (some (i + 1), set_proc s pid (record (proc_at s pid) { caps = caps }))
    ]

pub cap_alloc_current : ℕ → Sched → Option ℕ × Sched
cap_alloc_current endpoint_id s = cap_alloc_for s.current endpoint_id s

-- What a capability number names in a table: its endpoint, if the slot is in use.
abbrev pub cap_in : List ℕ → ℕ → Option ℕ
cap_in caps cap =
    if cap == 0
    then none
    else if leb cap_slots (cap - 1)
    then none
    else if get_or caps (cap - 1) 0 == 0
    then none
    else some (get_or caps (cap - 1) 0)

pub cap_lookup_current : ℕ → Sched → Option ℕ
cap_lookup_current cap s =
    if leb max_procs s.current then none else cap_in (proc_at s s.current).caps cap

-- `on_timer_irq`, less its log line on the serial port. The stored count wraps, but the sum after it
-- panics then.
unfoldable pub on_timer_irq : ℕ → Sched → Run (ℕ × Sched)
on_timer_irq current_tf s =
    if not s.inited
    then done (0, s)
    else (checked_add s.ticks 1 >>= λ t. done (switch_from current_tf (record s { ticks = t })))
