-- ===== src/Sched/Caps.antt =====
-- The capability tables of kernel/src/sched.rs.
use mantra_os.Common.{
  ℕ, zero, suc, ◌+◌, ◌-◌, ◌<◌, ◌≡◌, ◌≢◌, refl, ap, ◌∙◌, inl, inr, ◌||◌, ◌==◌, leb, List, [], ◌∷◌,
  none, some, Bool-cases, Option-cases, length, get_or, set, get_or-set_self, get_or-set_ne,
  length-set, arith,
}
use mathlib.Core.Path.{subst₂}
use mantra_os.Sched.{Sched, Proc, max_procs, proc_at, set_proc, fill_slot, cap_alloc_for, cap_in}
use mantra_os.Sched.Switch.{IsTable, proc_at-set_self, proc_at-set_ne}
use mantra_os.Sched.Table.{set_proc-IsTable}

pub fill_slot-set :
    (slots : List ℕ) (i ep j : ℕ) (slots' : List ℕ)
    → fill_slot i ep slots ≡ some (j, slots')
    → (k : ℕ) × (j ≡ i + k)
      × (k < length slots)
      × (get_or slots k 0 ≡ 0)
      × (slots' ≡ set slots k ep)
unfolding fill_slot
fill_slot-set [] i ep j slots' e = absurd (ground arith)
fill_slot-set (zero ∷ slots) i ep j slots' e = (0, ground arith, omega arith, refl, ground arith)
fill_slot-set (suc x ∷ slots) i ep j slots' e = elim (Option-cases (fill_slot (i + 1) ep slots)) [
  | inl full ↦ absurd (ground arith)
  | inr ((j', rest), found) ↦
      let (k, at, lt, unused, same) = fill_slot-set slots (i + 1) ep j' rest found in
      let at' : j ≡ j' = ground arith in (suc k, omega arith, omega arith, unused, ground arith)
]

-- What a new capability `cap` for endpoint `ep` in the table of `pid` is.
pub record Minted (pid ep cap : ℕ) (s s' : Sched) : Type 0 where
  pub names : cap_in (proc_at s' pid).caps cap ≡ some ep
  pub was_unused : cap_in (proc_at s pid).caps cap ≡ none
  pub keeps :
      (other : ℕ)
      → other ≢ cap
      → cap_in (proc_at s' pid).caps other ≡ cap_in (proc_at s pid).caps other
  pub elsewhere : (other : ℕ) → pid ≢ other → proc_at s' other ≡ proc_at s other
  pub table : IsTable s'

cap_in-set :
    (caps : List ℕ) (k ep : ℕ)
    → length caps ≡ 32
    → k < 32
    → ep ≢ 0
    → cap_in (set caps k ep) (k + 1) ≡ some ep
cap_in-set caps k ep len h ne =
    let at : k + 1 - 1 ≡ k = omega arith in
    let stored : get_or (set caps k ep) (k + 1 - 1) 0 ≡ ep =
      rw at (get_or-set_self caps k ep 0 (rw len h)) in
    ground arith

cap_in-set_ne :
    (caps : List ℕ) (k ep other : ℕ)
    → other ≢ k + 1
    → cap_in (set caps k ep) other ≡ cap_in caps other
cap_in-set_ne caps k ep zero ne = refl
cap_in-set_ne caps k ep (suc other) ne =
    let at : suc other - 1 ≡ other = omega arith in
    let same : get_or (set caps k ep) (suc other - 1) 0 ≡ get_or caps (suc other - 1) 0 =
      rw at (get_or-set_ne caps ep 0 (λ q. ne (omega arith))) in
    ground arith

cap_in-unused : (caps : List ℕ) (k : ℕ) → get_or caps k 0 ≡ 0 → cap_in caps (k + 1) ≡ none
cap_in-unused caps k unused =
    let at : k + 1 - 1 ≡ k = omega arith in
    let stored : get_or caps (k + 1 - 1) 0 ≡ 0 = rw at unused in ground arith

-- With a well-formed table, a capability number that `cap_alloc_for` gives a process names the
-- endpoint, had no meaning before, and leaves the process's other capabilities and every other
-- process as they were; the table stays well formed.
pub cap_alloc-Minted :
    (pid ep cap : ℕ) (s s' : Sched)
    → IsTable s
    → cap_alloc_for pid ep s ≡ (some cap, s')
    → Minted pid ep cap s s'
unfolding cap_alloc_for
cap_alloc-Minted pid ep cap s s' v e = elim (Bool-cases (leb max_procs pid || ep == 0)) [
  | inl refused ↦ absurd (ground arith)
  | inr valid ↦ elim (Option-cases (fill_slot 0 ep (proc_at s pid).caps)) [
    | inl full ↦ absurd (ground arith)
    | inr ((i, caps'), found) ↦
        let (k, at, lt, unused, same) = fill_slot-set (proc_at s pid).caps 0 ep i caps' found in
        let caps : List ℕ = (proc_at s pid).caps in
        let p : Proc = record (proc_at s pid) { caps = caps' } in
        let number : k + 1 ≡ cap = ground arith in
        let written : set_proc s pid p ≡ s' = ground arith in
        let in_table : pid < 8 = ground arith in
        let some_ep : ep ≢ 0 = ground arith in
        let len : length caps ≡ 32 = v.caps pid in
        let here : (proc_at (set_proc s pid p) pid).caps ≡ set caps k ep =
          ap (λ q. q.caps) (proc_at-set_self s pid p (rw v.procs in_table)) ∙ same in
        subst₂ (λ c t. Minted pid ep c s t) number written
          (record {
            names = rw here (cap_in-set caps k ep len (omega arith) some_ep);
            was_unused = cap_in-unused caps k unused;
            keeps = λ other ne. rw here (cap_in-set_ne caps k ep other ne);
            elsewhere = λ other ne. proc_at-set_ne s pid other p ne;
            table = set_proc-IsTable s pid p v (ap length same ∙ length-set caps k ep ∙ len);
          })
  ]
]
