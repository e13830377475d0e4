-- ===== src/Sched/Pick.antt =====
-- Which process `pick_next_runnable` of kernel/src/sched.rs picks.
use mantra_os.Common.{
  ℕ, zero, suc, ◌+◌, ◌%◌, ◌<◌, ◌≡◌, ◌⊎◌, inl, inr, refl, subst, Bool, true, false, Bool-cases,
  arith,
}
use mantra_os.Sched.{Sched, proc_at, can_run, pick_from, pick_next_runnable}

abbrev pub runs : Sched → ℕ → Bool
runs s pid = can_run (proc_at s pid)

-- The process `k + 1` places after `cur`, round the table.
abbrev pub after : ℕ → ℕ → ℕ
after cur k = (cur + suc k) % 8

-- No process up to `k` places after `cur` can run.
abbrev pub NoneBefore : Sched → ℕ → ℕ → Type 0
NoneBefore s cur k = (m : ℕ) → m < k → runs s (after cur m) ≡ false

-- The first of the `rounds` processes after `next` that can run, or `cur` if there is none.
abbrev pub Picks : Sched → ℕ → ℕ → ℕ → ℕ → Type 0
Picks s next rounds cur pid =
    ((k : ℕ) × (k < rounds) × (pid ≡ after next k) × (runs s pid ≡ true) × NoneBefore s next k)
    ⊎ ((pid ≡ cur) × NoneBefore s next rounds)

NoneBefore-suc :
    (s : Sched) (next k : ℕ)
    → runs s ((next + 1) % 8) ≡ false
    → NoneBefore s ((next + 1) % 8) k
    → NoneBefore s next (suc k)
NoneBefore-suc s next k idle rest zero h =
    let here : (next + 1) % 8 ≡ after next 0 = omega arith in
    subst (λ i. runs s i ≡ false) here idle
NoneBefore-suc s next k idle rest (suc m) h =
    let there : after ((next + 1) % 8) m ≡ after next (suc m) = omega arith in
    subst (λ i. runs s i ≡ false) there (rest m (omega arith))

pick_from_hit :
    (rounds next cur : ℕ) (s : Sched)
    → runs s ((next + 1) % 8) ≡ true
    → pick_from (suc rounds) next cur s ≡ (next + 1) % 8
unfolding pick_from
pick_from_hit rounds next cur s e = rw (e, pick_from)

pick_from_miss :
    (rounds next cur : ℕ) (s : Sched)
    → runs s ((next + 1) % 8) ≡ false
    → pick_from (suc rounds) next cur s ≡ pick_from rounds ((next + 1) % 8) cur s
unfolding pick_from
pick_from_miss rounds next cur s e = rw (e, pick_from)

pick_from-Picks :
    (rounds next cur : ℕ) (s : Sched) → Picks s next rounds cur (pick_from rounds next cur s)
unfolding pick_from
pick_from-Picks zero next cur s = inr (refl, λ m h. absurd (omega arith))
pick_from-Picks (suc rounds) next cur s = elim (Bool-cases (runs s ((next + 1) % 8))) [
  | inl hit ↦
      rw (pick_from_hit rounds next cur s hit)
        (inl (0, omega arith, omega arith, hit, λ m h. absurd (omega arith)))
  | inr miss ↦ elim (pick_from-Picks rounds ((next + 1) % 8) cur s) [
    | inl (k, lt, e, can, before) ↦
        rw (pick_from_miss rounds next cur s miss)
          (inl (suc k, omega arith, omega arith, can, NoneBefore-suc s next k miss before))
    | inr (e, before) ↦
        rw (pick_from_miss rounds next cur s miss)
          (inr (e, NoneBefore-suc s next rounds miss before))
  ]
]

-- The process picked is the first after `cur`, round the table and `cur` itself last, that is alive
-- and runnable; if none is, it is `cur`.
pub pick-Picks : (cur : ℕ) (s : Sched) → Picks s cur 8 cur (pick_next_runnable cur s)
unfolding pick_next_runnable
pick-Picks cur s = pick_from-Picks 8 cur cur s
