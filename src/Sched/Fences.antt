-- ===== src/Sched/Fences.antt =====
-- The kernel stacks of the processes of kernel/src/sched.rs: blocks of the heap that share no byte.
use mantra_os.Common.{
  ℕ, ◌+◌, ◌*◌, ◌≤◌, ◌≡◌, ◌≢◌, inl, inr, refl, sym, ap, ◌∙◌, true, false, ◌⊎◌, get_or, replicate,
  zero, suc, arith,
}
use native.Mathlib.Decide.{ℕ_discrete}
use mathlib.Core.Bool.{false≢true}
use mantra_os.Sched.{Sched, empty_proc, install_first, set_rsp0, proc_at}

-- The size of a kernel stack.
abbrev pub kstack_bytes : ℕ
kstack_bytes = 16 * 1024

-- The kernel stacks that end at `a` and at `b` share no byte.
abbrev Apart : ℕ → ℕ → Type 0
Apart a b = (a + kstack_bytes ≤ b) ⊎ (b + kstack_bytes ≤ a)

-- The kernel stacks of live processes end at or below `brk`, and those of two processes are apart.
pub record Fenced (brk : ℕ) (s : Sched) : Type 0 where
  pub below : (pid : ℕ) → (proc_at s pid).alive ≡ true → (proc_at s pid).kstack_top ≤ brk
  pub apart :
      (i j : ℕ)
      → i ≢ j
      → (proc_at s i).alive ≡ true
      → (proc_at s j).alive ≡ true
      → Apart (proc_at s i).kstack_top (proc_at s j).kstack_top

-- The same processes with the same stacks.
pub same_stacks-Fenced :
    (brk : ℕ) (s s' : Sched)
    → ((i : ℕ) → (proc_at s' i).alive ≡ (proc_at s i).alive)
    → ((i : ℕ) → (proc_at s' i).kstack_top ≡ (proc_at s i).kstack_top)
    → Fenced brk s
    → Fenced brk s'
same_stacks-Fenced brk s s' alive stacks h = record {
  below = λ i live. rw (stacks i) (h.below i (sym (alive i) ∙ live));
  apart = λ i j differ li lj.
      rw (stacks i, stacks j) (h.apart i j differ (sym (alive i) ∙ li) (sym (alive j) ∙ lj));
}

-- One process more, whose stack is above the others.
pub one_more-Fenced :
    (brk top pid : ℕ) (s s' : Sched)
    → brk + kstack_bytes ≤ top
    → (proc_at s' pid).kstack_top ≡ top
    → ((i : ℕ) → pid ≢ i → proc_at s' i ≡ proc_at s i)
    → Fenced brk s
    → Fenced top s'
one_more-Fenced brk top pid s s' room new others h =
    let old : (i : ℕ) → pid ≢ i → (proc_at s' i).alive ≡ true → (proc_at s' i).kstack_top ≤ brk =
      λ i differ. rw (others i differ) (h.below i) in
    record {
      below = λ i live. elim (ℕ_discrete pid i) [
        | yes same ↦ omega (arith, ap (λ q. (proc_at s' q).kstack_top) same, new)
        | no differ ↦ omega (arith, old i differ live, room)
      ];
      apart = λ i j differ li lj. elim (ℕ_discrete pid i) [
        | yes same ↦
            let other : pid ≢ j = λ e. differ (sym same ∙ e) in
            inr (omega (arith, ap (λ q. (proc_at s' q).kstack_top) same, new, room, old j other lj))
        | no here ↦ elim (ℕ_discrete pid j) [
          | yes same ↦
              inl
                (omega (arith, ap (λ q. (proc_at s' q).kstack_top) same, new, room, old i here li))
          | no there ↦
              rw (others i here, others j there)
                (h.apart i j differ (ap (λ p. p.alive) (sym (others i here)) ∙ li)
                  (ap (λ p. p.alive) (sym (others j there)) ∙ lj))
        ]
      ];
    }

-- No process but the first.
pub later_slot : (n i : ℕ) → (get_or (replicate n empty_proc) i empty_proc).alive ≡ false
later_slot zero i = refl
later_slot (suc n) zero = refl
later_slot (suc n) (suc i) = later_slot n i

first-dead :
    (tf_rsp top cr3 i : ℕ) (s : Sched)
    → (proc_at (install_first tf_rsp top cr3 s) (suc i)).alive ≡ false
unfolding install_first
first-dead tf_rsp top cr3 i s = later_slot 7 i

first-below :
    (tf_rsp top cr3 : ℕ) (s : Sched) (pid : ℕ)
    → (proc_at (install_first tf_rsp top cr3 s) pid).alive ≡ true
    → (proc_at (install_first tf_rsp top cr3 s) pid).kstack_top ≤ top
unfolding install_first
first-below tf_rsp top cr3 s zero live = omega arith
first-below tf_rsp top cr3 s (suc i) live =
    absurd (false≢true (sym (first-dead tf_rsp top cr3 i s) ∙ live))

first-Apart :
    (tf_rsp top cr3 : ℕ) (s : Sched) (i j : ℕ)
    → i ≢ j
    → (proc_at (install_first tf_rsp top cr3 s) i).alive ≡ true
    → (proc_at (install_first tf_rsp top cr3 s) j).alive ≡ true
    → Apart
        (proc_at (install_first tf_rsp top cr3 s) i).kstack_top
        (proc_at (install_first tf_rsp top cr3 s) j).kstack_top
first-Apart tf_rsp top cr3 s zero zero differ li lj = absurd (differ refl)
first-Apart tf_rsp top cr3 s zero (suc j) differ li lj =
    absurd (false≢true (sym (first-dead tf_rsp top cr3 j s) ∙ lj))
first-Apart tf_rsp top cr3 s (suc i) j differ li lj =
    absurd (false≢true (sym (first-dead tf_rsp top cr3 i s) ∙ li))

-- One process alone, with its stack's end at `top`.
pub first-Fenced :
    (tf_rsp top cr3 : ℕ) (s : Sched) → Fenced top (set_rsp0 top (install_first tf_rsp top cr3 s))
unfolding install_first
first-Fenced tf_rsp top cr3 s = record {
  below = first-below tf_rsp top cr3 s;
  apart = first-Apart tf_rsp top cr3 s;
}
