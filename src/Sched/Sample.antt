-- ===== src/Sched/Sample.antt =====
-- A table of two processes of kernel/src/sched.rs, for the tests.
use mantra_os.Common.{
  ℕ, zero, suc, ◌≡◌, ◌≢◌, refl, sym, ◌∙◌, true, false, ◌∷◌, some, length, get_or, replicate, arith,
}
use mathlib.Core.Bool.{false≢true}
use mantra_os.Sched.{
  Sched, empty_proc, new_proc, proc_at, cap_lookup_current, has_other_runnable, other_runnable,
  proc_cr3, proc_tf_rsp, can_run,
}
use mantra_os.Sched.Pick.{runs}
use mantra_os.Sched.Switch.{IsTable}

-- Process 0 runs and has endpoint 3 as its capability 1; process 1 has been spawned.
abbrev pub two : Sched
two = record {
  inited = true;
  current = 0;
  ticks = 0;
  next_cr3 = 0x5000;
  procs =
      record (new_proc 0x9000 0xa000 0x5000) { caps = 3 ∷ replicate 31 0 }
      ∷ new_proc 0xb000 0xc000 0x6000
      ∷ replicate 6 empty_proc;
  rsp0 = 0xa000;
}

absent-caps : (n pid : ℕ) → length (get_or (replicate n empty_proc) pid empty_proc).caps ≡ 32
absent-caps zero pid = refl
absent-caps (suc n) zero = refl
absent-caps (suc n) (suc pid) = absent-caps n pid

two-caps : (pid : ℕ) → length (proc_at two pid).caps ≡ 32
two-caps zero = refl
two-caps (suc zero) = refl
two-caps (suc (suc pid)) = absent-caps 6 pid

pub two-IsTable : IsTable two
two-IsTable = record { procs = refl; current = omega arith; caps = two-caps }

pub two-other : has_other_runnable two ≡ true
unfolding has_other_runnable other_runnable
two-other = refl

pub two-cap : cap_lookup_current 1 two ≡ some 3
unfolding cap_lookup_current
two-cap = refl

pub two-root : proc_cr3 1 two ≡ some 0x6000
unfolding proc_cr3
two-root = refl

pub two-frame : proc_tf_rsp 1 two ≡ some 0xb000
unfolding proc_tf_rsp
two-frame = refl

absent-idle : (n pid : ℕ) → can_run (get_or (replicate n empty_proc) pid empty_proc) ≡ false
absent-idle zero pid = refl
absent-idle (suc n) zero = refl
absent-idle (suc n) (suc pid) = absent-idle n pid

pub two-frames : (pid : ℕ) → runs two pid ≡ true → (proc_at two pid).tf_rsp ≢ 0
two-frames zero can e = absurd (omega arith)
two-frames (suc zero) can e = absurd (omega arith)
two-frames (suc (suc pid)) can e = absurd (false≢true (sym (absent-idle 6 pid) ∙ can))
