-- ===== src/Tables/Space.antt =====
-- The address space that kernel/src/user.rs builds: a tree of tables beside the free memory, and what
-- `get_or_alloc_table` does to it.
use mantra_os.Common.{ℕ, ◌≤◌, ◌^◌, ◌<◌, ◌≡◌, inl, inr, subst, List, ◌∷◌, some, true, length, arith}
use mantra_os.Common.Run.{done}
use mantra_os.Pmm.{Pmm}
use mantra_os.Pmm.Cover.{covers}
use mantra_os.Pmm.Pool.{IsPool, Granted, remaining}
use mantra_os.Pmm.Alloc.{alloc_pages-Granted, alloc_pages_cases}
use mantra_os.Tables.{Phys, zeroed, alloc_table, step_present}
use mantra_os.Tables.Tree.{down, IsPath, Tree}

-- The manager is set up and its free memory lies within the 52 bits of an entry's address; the
-- tables under `root` are a tree outside the free memory.
pub record Space (root : ℕ) (st : Phys) : Type 0 where
  pub manager : Pmm
  pub is_manager : st.pmm ≡ some manager
  pub pool : IsPool 0 (remaining manager)
  pub low : (a : ℕ) → covers (remaining manager) a ≡ true → a < 2 ^ 52
  pub tree : Tree (step_present st.mem) root (remaining manager)

-- What an allocated table is.
pub record Fresh (st st' : Phys) (before : Pmm) (p : ℕ) : Type 0 where
  pub manager : Pmm
  pub is_manager : st'.pmm ≡ some manager
  pub cleared : st'.mem ≡ zeroed st.mem p
  pub granted : Granted 1 p (remaining before) (remaining manager)

pub alloc_table-Fresh :
    (st st' : Phys) (pmm : Pmm) (p : ℕ)
    → st.pmm ≡ some pmm
    → IsPool 0 (remaining pmm)
    → alloc_table st ≡ done (p, st')
    → Fresh st st' pmm p
unfolding alloc_table
alloc_table-Fresh st st' pmm p is_pmm pool e = elim (alloc_pages_cases 1 pmm pool) [
  | inl (none_asked, same) ↦ absurd (omega (arith, none_asked))
  | inr (inl (pmm', refused, spent)) ↦ absurd (ground arith)
  | inr (inr (q, pmm', got)) ↦
      let at : q ≡ p = ground arith in
      record {
        manager = pmm';
        is_manager = ground arith;
        cleared = ground arith;
        granted =
            subst (λ a. Granted 1 a (remaining pmm) (remaining pmm')) at
              (alloc_pages-Granted 1 q pmm pmm' pool got);
      }
]

-- A step of `get_or_alloc_table` from the table at the path `at` by index `j` to the table `t`.
pub record Entered (root j : ℕ) (at : List ℕ) (st st' : Phys) (t : ℕ) : Type 0 where
  pub space : Space root st'
  pub child : down (step_present st'.mem) root (j ∷ at) ≡ some t
  pub pages :
      (js : List ℕ)
      → IsPath js
      → length js ≡ 4
      → down (step_present st'.mem) root js ≡ down (step_present st.mem) root js
  pub grows :
      (js : List ℕ) (s : ℕ)
      → IsPath js
      → length js ≤ 3
      → down (step_present st.mem) root js ≡ some s
      → down (step_present st'.mem) root js ≡ some s
