-- ===== src/Sched/Fair.antt =====
-- Round robin: kernel/src/sched.rs lets no runnable process wait for more than eight timer ticks.
use mantra_os.Common.{
  ℕ, suc, ◌+◌, ◌-◌, ◌%◌, ◌<◌, ◌≡◌, ◌⊎◌, inl, inr, refl, sym, ap, subst, ◌∙◌, ltb, Bool-cases, true,
  List, [], ◌∷◌, length, take, arith,
}
use native.Mathlib.Decide.{ℕ_discrete, dec_lt}
use mathlib.Core.Bool.{false≢true}
use mantra_os.Common.Word.{u64_mod}
use mantra_os.Common.Run.{Run, done, ◌>>=◌, done-injective}
use mantra_os.Sched.{Sched, switch_from, on_timer_irq}
use mantra_os.Sched.Pick.{runs, after, Picks}
use mantra_os.Sched.Switch.{IsTable, Switched, switch-Switched}

-- The places from `cur` to `pid` round the table, less one.
abbrev pub gap : ℕ → ℕ → ℕ
gap cur pid = (pid + 7 - cur) % 8

-- A switch reaches a process that can run, or comes nearer to it.
pub Picks-gap :
    (s : Sched) (cur pid next : ℕ)
    → cur < 8
    → pid < 8
    → runs s pid ≡ true
    → Picks s cur 8 cur next
    → (next ≡ pid) ⊎ (gap next pid < gap cur pid)
Picks-gap s cur pid next hc hp can (inl (k, lt, at, canNext, before)) =
    let there : after cur (gap cur pid) ≡ pid = omega arith in
    elim (dec_lt (gap cur pid) k) [
      | yes early ↦ absurd (false≢true (sym (before (gap cur pid) early) ∙ ap (runs s) there ∙ can))
      | no late ↦ elim (ℕ_discrete k (gap cur pid)) [
        | yes hit ↦ inl (omega arith)
        | no short ↦ inr (omega arith)
      ]
    ]
Picks-gap s cur pid next hc hp can (inr (at, before)) =
    let there : after cur (gap cur pid) ≡ pid = omega arith in
    absurd (false≢true (sym (before (gap cur pid) (omega arith)) ∙ ap (runs s) there ∙ can))

-- Timer interrupts at the frames `tfs`, one after the other, and nothing else.
pub timer : List ℕ → Sched → Run Sched
timer [] s = done s
timer (tf ∷ tfs) s = on_timer_irq tf s >>= λ (r, s'). timer tfs s'

abbrev ticked : Sched → Sched
ticked s = record s { ticks = s.ticks + 1 }

on_timer_irq_lem :
    (tf : ℕ) (s : Sched)
    → s.inited ≡ true
    → s.ticks + 1 < u64_mod
    → on_timer_irq tf s ≡ done (switch_from tf (ticked s))
unfolding on_timer_irq
on_timer_irq_lem tf s e room =
    let small : ltb (s.ticks + 1) u64_mod ≡ true = ground (arith, room) in rw (e, small, ◌>>=◌) refl

-- An interrupt that does not panic has room for the count of ticks.
on_timer_irq_room :
    (tf : ℕ) (s : Sched) (out : ℕ × Sched)
    → s.inited ≡ true
    → on_timer_irq tf s ≡ done out
    → s.ticks + 1 < u64_mod
unfolding on_timer_irq
on_timer_irq_room tf s out e made = elim (Bool-cases (ltb (s.ticks + 1) u64_mod)) [
  | inl room ↦ ground arith
  | inr full ↦ absurd (ground arith)
]

switch_from-ticks : (tf : ℕ) (s : Sched) → (switch_from tf s).1.ticks ≡ s.ticks
unfolding switch_from
switch_from-ticks tf s = ground arith

ticked-Switched :
    (tf : ℕ) (s : Sched)
    → IsTable s
    → Switched tf s (switch_from tf (ticked s)).0 (switch_from tf (ticked s)).1
ticked-Switched tf s v =
    let w =
      switch-Switched tf (ticked s)
        (record { procs = v.procs; current = v.current; caps = v.caps }) in
    (record {
      table = w.table;
      on = w.on;
      saves = w.saves;
      same_runs = w.same_runs;
      same_caps = w.same_caps;
      same_blocked = w.same_blocked;
      same_cr3 = w.same_cr3;
      same_alive = w.same_alive;
      same_stacks = w.same_stacks;
      other_frames = w.other_frames;
      picks = w.picks;
      loads = w.loads;
      stays = w.stays;
    })

-- One timer interrupt is a switch.
pub on_timer_irq-Switched :
    (tf : ℕ) (s : Sched) (out : ℕ × Sched)
    → IsTable s
    → s.inited ≡ true
    → on_timer_irq tf s ≡ done out
    → Switched tf s out.0 out.1
on_timer_irq-Switched tf s out v on made =
    let same : switch_from tf (ticked s) ≡ out =
      done-injective (switch_from tf (ticked s)) out
        (sym (on_timer_irq_lem tf s on (on_timer_irq_room tf s out on made)) ∙ made) in
    subst (λ (q : ℕ × Sched). Switched tf s q.0 q.1) same (ticked-Switched tf s v)

-- Within the first `n` interrupts, none of which panics, the process becomes the current one.
abbrev pub Turns : List ℕ → ℕ → ℕ → Sched → Type 0
Turns tfs n pid s =
    (m : ℕ) × (s' : Sched) × (m < n) × (timer (take (suc m) tfs) s ≡ done s') × (s'.current ≡ pid)

reach :
    (tfs : List ℕ) (n pid : ℕ) (s : Sched)
    → IsTable s
    → s.inited ≡ true
    → pid < 8
    → runs s pid ≡ true
    → gap s.current pid < n
    → length tfs ≡ n
    → s.ticks + n < u64_mod
    → Turns tfs n pid s
unfolding timer
reach [] n pid s v on hp can near len room = absurd (omega arith)
reach (tf ∷ tfs) n pid s v on hp can near len room =
    let out = switch_from tf (ticked s) in
    let made : on_timer_irq tf s ≡ done out =
      on_timer_irq_lem tf s on (omega (arith, room, near)) in
    let w : Switched tf s out.0 out.1 = ticked-Switched tf s v in
    elim (Picks-gap s s.current pid out.1.current v.current hp can w.picks) [
      | inl here ↦ (0, out.1, omega arith, ap (λ r. r >>= λ (q, s'). done s') made, here)
      | inr closer ↦
          let (m, s', lt, run, e) =
            reach tfs (n - 1) pid out.1 w.table (w.on ∙ on) hp (w.same_runs pid ∙ can) (omega arith)
              (omega arith) (omega (arith, room, near, switch_from-ticks tf (ticked s))) in
          (
            suc m,
            s',
            omega arith,
            ap (λ r. r >>= λ (q, s''). timer (take (suc m) tfs) s'') made ∙ run,
            e,
          )
    ]

-- In a started scheduler with a well-formed table, whose count of ticks has room for eight more, a
-- process that is alive and runnable becomes the current one after at least one and at most eight of
-- eight timer interrupts, none of which panics until then, whichever process runs at the start and
-- whatever frames are interrupted.
pub timer_reaches :
    (tfs : List ℕ) (pid : ℕ) (s : Sched)
    → IsTable s
    → s.inited ≡ true
    → pid < 8
    → runs s pid ≡ true
    → length tfs ≡ 8
    → s.ticks + 8 < u64_mod
    → Turns tfs 8 pid s
timer_reaches tfs pid s v on hp can len room = reach tfs 8 pid s v on hp can (omega arith) len room
