-- ===== src/Tables/Enter.antt =====
-- `get_or_alloc_table` of kernel/src/user.rs keeps the tree of tables and every page's translation.
use mantra_os.Common.{
  ℕ, ◌%◌, ◌≤◌, ◌<◌, ◌≡◌, ◌≢◌, ◌⊎◌, inl, inr, refl, sym, ap, subst, ◌∙◌, List, ◌∷◌, none, some, true,
  ◌&&◌, not, Bool-cases, length, arith,
}
use mathlib.Core.Bool.{false≢true}
use native.Mathlib.Decide.{ℕ_discrete}
use mantra_os.Common.Run.{done, Run-cases}
use mantra_os.Common.Bits.{bit_and, bit_or}
use mantra_os.Pmm.Cover.{covers}
use mantra_os.Pmm.Pool.{remaining}
use mantra_os.Memory.{Mem, read_u64, write_u64, pte_p, pte_u, frame_mask}
use mantra_os.Memory.Words.{read-write_self}
use mantra_os.Tables.{
  Phys, zeroed, alloc_table, table_entry, has, new_entry, get_or_alloc_table, step_present,
}
use mantra_os.Tables.Entries.{
  through, step_present-through, step-write_self, step-write_ne, step-zeroed_self, step-zeroed_ne,
  new_entry-Names, through-user, frame-user,
}
use mantra_os.Tables.Tree.{down, entries, IsPath, IsTaken, Grafts, entries-le}
use mantra_os.Tables.Grow.{Tree-same, down-same, graft-child, table-Tree, table-grows, table-pages}
use mantra_os.Tables.Space.{Space, Fresh, alloc_table-Fresh, Entered}

-- The three ends of the function.
pub get_or_alloc_table-cases :
    (s j flags t : ℕ) (st st' : Phys)
    → get_or_alloc_table (table_entry s j) flags st ≡ done (t, st')
    → let entry = table_entry s j in
      let v = read_u64 st.mem entry in
      ((step_present st.mem s j ≡ some t)
        × (((st' ≡ st) × (has pte_u flags ≡ true → has pte_u v ≡ true))
            ⊎ (st' ≡ record st { mem = write_u64 st.mem entry (bit_or v pte_u) })))
      ⊎ ((step_present st.mem s j ≡ none)
          × ((st1 : Phys) × (alloc_table st ≡ done (t, st1))
              × (st' ≡ record st1 { mem = write_u64 st1.mem entry (new_entry t flags) })))
unfolding get_or_alloc_table step_present
get_or_alloc_table-cases s j flags t st st' e =
    let entry : ℕ = table_entry s j in
    let v : ℕ = read_u64 st.mem entry in
    elim (Bool-cases (has pte_p v)) [
      | inl present ↦ elim (Bool-cases (has pte_u flags && not (has pte_u v))) [
        | inl opened ↦
            let same : bit_and (bit_or v pte_u) frame_mask ≡ bit_and v frame_mask = frame-user v in
            inl (ground arith, inr (ground arith))
        | inr as_was ↦ inl (ground arith, inl (ground arith, λ asked. ground arith))
      ]
      | inr absent ↦ elim (Run-cases (alloc_table st)) [
        | inl failed ↦ absurd (ground arith)
        | inr ((p, st1), got) ↦
            let at : p ≡ t = ground arith in
            let got_t : alloc_table st ≡ done (t, st1) =
              subst (λ a. alloc_table st ≡ done (a, st1)) at got in
            inr (ground arith, (st1, got_t, ground arith))
      ]
    ]

-- The bit for user mode changes no step.
step-user :
    (m : Mem) (s j r i : ℕ)
    → s % 4096 ≡ 0
    → r % 4096 ≡ 0
    → j < 512
    → i < 512
    → let entry = table_entry s j in
      step_present (write_u64 m entry (bit_or (read_u64 m entry) pte_u)) r i ≡ step_present m r i
step-user m s j r i hs hr hj hi =
    let entry : ℕ = table_entry s j in
    let v : ℕ = read_u64 m entry in
    let m' : Mem = write_u64 m entry (bit_or v pte_u) in
    let there : step_present m' s j ≡ step_present m s j =
      step_present-through m' s j
      ∙ ap through (read-write_self m entry (bit_or v pte_u))
      ∙ through-user v
      ∙ sym (step_present-through m s j) in
    elim (ℕ_discrete r s) [
      | no other ↦ step-write_ne m r s i j (bit_or v pte_u) hr hs hi hj (inl other)
      | yes table ↦ elim (ℕ_discrete i j) [
        | no other ↦ step-write_ne m r s i j (bit_or v pte_u) hr hs hi hj (inr other)
        | yes index ↦ rw (table, index) there
      ]
    ]

module _ (root s j flags : ℕ) (at : List ℕ) (st : Phys) (space : Space root st)
    (at-IsPath : IsPath at) (high : length at ≤ 2) (in_half : j < entries at)
    (leads : down (step_present st.mem) root at ≡ some s) where
  in_table : j < 512
  in_table = omega (arith, entries-le at, in_half)

  here : IsTaken (remaining space.manager) s
  here = space.tree.table at s at-IsPath (omega arith) leads

  Entered-present : (t : ℕ) → step_present st.mem s j ≡ some t → Entered root j at st st t
  unfolding down
  Entered-present t e = record {
    space = space;
    child = rw leads e;
    pages = λ js p le. refl;
    grows = λ js q p le e'. e';
  }

  Entered-opened :
      (t : ℕ)
      → step_present st.mem s j ≡ some t
      → let entry = table_entry s j in
        let m' = write_u64 st.mem entry (bit_or (read_u64 st.mem entry) pte_u) in
        Entered root j at st (record st { mem = m' }) t
  unfolding down
  Entered-opened t e =
      let entry : ℕ = table_entry s j in
      let m' : Mem = write_u64 st.mem entry (bit_or (read_u64 st.mem entry) pte_u) in
      let steps = λ (r i : ℕ) (hr : IsTaken (remaining space.manager) r) (hi : i < 512).
        step-user st.mem s j r i here.0 hr.0 in_table hi in
      let same =
        down-same (step_present st.mem) (step_present m') root (remaining space.manager) space.tree
          steps in
      record {
        space = record {
          manager = space.manager;
          is_manager = space.is_manager;
          pool = space.pool;
          low = space.low;
          tree =
              Tree-same (step_present st.mem) (step_present m') root (remaining space.manager)
                (λ js p le. same js p (omega arith)) space.tree;
        };
        child = same (j ∷ at) (in_half, at-IsPath) (omega arith) ∙ rw leads e;
        pages = λ js p le. same js p (omega arith);
        grows = λ js q p le e'. same js p (omega arith) ∙ e';
      }

  -- The memory after a new table is entered.
  abbrev entered : Mem → ℕ → Mem
  entered m t = write_u64 (zeroed m t) (table_entry s j) (new_entry t flags)

  module _ (t : ℕ) (st1 : Phys) (fresh : Fresh st st1 space.manager t) where
    t_free : covers (remaining space.manager) t ≡ true
    t_free = fresh.granted.was_free t (omega arith) (omega arith)

    pub t-ne : (r : ℕ) → IsTaken (remaining space.manager) r → r ≢ t
    t-ne r hr q = false≢true (sym hr.1 ∙ ap (covers (remaining space.manager)) q ∙ t_free)

    enters :
        Grafts
          (step_present st.mem)
          (step_present (entered st.mem t))
          (remaining space.manager)
          s
          j
          t
    enters = record {
      new =
          step-write_self (zeroed st.mem t) s j (new_entry t flags) t
            (new_entry-Names t flags fresh.granted.aligned (space.low t t_free));
      same = λ r i hr hi ne.
          step-write_ne (zeroed st.mem t) r s i j (new_entry t flags) hr.0 here.0 hi in_table ne
          ∙ step-zeroed_ne st.mem t r i fresh.granted.aligned hr.0 hi (t-ne r hr);
    }

    empty : (i : ℕ) → i < 512 → step_present (entered st.mem t) t i ≡ none
    empty i hi =
        step-write_ne (zeroed st.mem t) t s i j (new_entry t flags) fresh.granted.aligned here.0 hi
          in_table (inl (λ q. t-ne s here (sym q)))
        ∙ step-zeroed_self st.mem t i hi

    Entered-new :
        step_present st.mem s j ≡ none
        → Entered root j at st (record st1 { mem = entered st.mem t }) t
    unfolding down
    Entered-new was =
        let f = step_present st.mem in
        let g = step_present (entered st.mem t) in
        let free = remaining space.manager in
        let nothing : (f s j ≡ none) × ((i : ℕ) → i < 512 → g t i ≡ none) = (was, empty) in
        let free' = remaining fresh.manager in
        let taken : IsTaken free' t =
          (fresh.granted.aligned, fresh.granted.now_taken t (omega arith) (omega arith)) in
        let shrinks = fresh.granted.shrinks in
        record {
          space = record {
            manager = fresh.manager;
            is_manager = fresh.is_manager;
            pool = fresh.granted.pool;
            low = λ a c. space.low a (shrinks a c);
            tree =
                table-Tree f g root free space.tree s j t at at-IsPath (omega arith) leads enters
                  nothing free' t_free taken shrinks;
          };
          child =
              graft-child f g root free space.tree s j t at at-IsPath (omega arith) leads enters
                (inr nothing);
          pages =
              table-pages f g root free space.tree s j t at at-IsPath (omega arith) leads enters
                nothing free' t_free taken shrinks high;
          grows =
              table-grows f g root free space.tree s j t at at-IsPath (omega arith) leads enters
                nothing free' t_free taken shrinks;
        }

  -- From a table of the tree, the function leads to a table of the tree that it leaves.
  pub get_or_alloc_table-Entered :
      (t : ℕ) (st' : Phys)
      → get_or_alloc_table (table_entry s j) flags st ≡ done (t, st')
      → Entered root j at st st' t
  get_or_alloc_table-Entered t st' e = elim (get_or_alloc_table-cases s j flags t st st' e) [
    | inl (present, inl (as_was, open_if_asked)) ↦
        subst (λ q. Entered root j at st q t) (sym as_was) (Entered-present t present)
    | inl (present, inr opened) ↦
        subst (λ q. Entered root j at st q t) (sym opened) (Entered-opened t present)
    | inr (was, (st1, got, made)) ↦
        let fresh : Fresh st st1 space.manager t =
          alloc_table-Fresh st st1 space.manager t space.is_manager space.pool got in
        let entry : ℕ = table_entry s j in
        let after : st' ≡ record st1 { mem = entered st.mem t } =
          made
          ∙ ap (λ m. record st1 { mem = write_u64 m entry (new_entry t flags) }) fresh.cleared in
        subst (λ q. Entered root j at st q t) (sym after) (Entered-new t st1 fresh was)
  ]
