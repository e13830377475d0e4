-- ===== src/Tables/Reach.antt =====
-- Which pages that kernel/src/user.rs maps the page walk of kernel/src/arch/x86_64/isr.rs reaches.
use mantra_os.Common.{
  ℕ, ◌%◌, ◌≤◌, ◌<◌, ◌≡◌, ◌≢◌, inl, inr, sym, subst, ◌∙◌, List, none, some, true, length, arith,
}
use native.Mathlib.Decide.{ℕ_discrete}
use mantra_os.Common.Run.{done}
use mantra_os.Common.Bits.{bit_or}
use mantra_os.Pmm.Pool.{remaining}
use mantra_os.Memory.{Mem, read_u64, write_u64, step_down, pte_u}
use mantra_os.Tables.{Phys, zeroed, table_entry, has, new_entry, get_or_alloc_table, step_present}
use mantra_os.Tables.Entries.{read-write_ne, read-zeroed_ne, step-zeroed_ne}
use mantra_os.Tables.User.{
  step_down-cong, step_down-write_self, present-user, present-opened, step_down-present,
  new_entry-IsUser,
}
use mantra_os.Tables.Tree.{down, entries, IsPath, IsTaken, entries-le}
use mantra_os.Tables.Space.{Space, Fresh, alloc_table-Fresh}
use mantra_os.Tables.Enter.{get_or_alloc_table-cases, t-ne}

-- What entering entry `j` of the table at `s` does to the walk: for user mode it goes on to `t`, and
-- it still goes wherever it went from a table.
pub record Opens {root : ℕ} {st : Phys} (flags s j t : ℕ) (before : Space root st) (st' : Phys)
    : Type 0 where
  pub user : has pte_u flags ≡ true → step_down st'.mem s j ≡ some t
  pub keeps :
      (r i x : ℕ)
      → IsTaken (remaining before.manager) r
      → i < 512
      → step_down st.mem r i ≡ some x
      → step_down st'.mem r i ≡ some x

-- A write to one entry keeps the walk through the others.
pub write-keeps :
    (m : Mem) (s j e : ℕ)
    → s % 4096 ≡ 0
    → j < 512
    → ((x : ℕ)
        → step_down m s j ≡ some x
        → step_down (write_u64 m (table_entry s j) e) s j ≡ some x)
    → (r i x : ℕ) → r % 4096 ≡ 0
    → i < 512
    → step_down m r i ≡ some x
    → step_down (write_u64 m (table_entry s j) e) r i ≡ some x
write-keeps m s j e hs hj there r i x hr hi went =
    let m' : Mem = write_u64 m (table_entry s j) e in
    elim (ℕ_discrete r s) [
      | no other ↦
          step_down-cong m m' r i x (read-write_ne m r s i j e hr hs hi hj (inl other)) went
      | yes table ↦ elim (ℕ_discrete i j) [
        | no other ↦
            step_down-cong m m' r i x (read-write_ne m r s i j e hr hs hi hj (inr other)) went
        | yes index ↦
            rw (table, index)
              (there x (
                subst (λ q. step_down m q j ≡ some x) table
                  (subst (λ q. step_down m r q ≡ some x) index went)))
      ]
    ]

-- The walk does not pass an entry that was not present, nor does it after a page is cleared.
closed_before :
    (m : Mem) (p s j y : ℕ)
    → p % 4096 ≡ 0
    → s % 4096 ≡ 0
    → j < 512
    → s ≢ p
    → step_present m s j ≡ none
    → step_down (zeroed m p) s j ≢ some y
closed_before m p s j y hp hs hj ne was there =
    let present : step_present m s j ≡ some y =
      sym (step-zeroed_ne m p s j hp hs hj ne) ∙ step_down-present (zeroed m p) s j y there in
    ground arith

pub get_or_alloc_table-Opens :
    (root s j flags t : ℕ) (at : List ℕ) (st st' : Phys) (space : Space root st)
    → IsPath at
    → length at ≤ 2
    → j < entries at
    → down (step_present st.mem) root at ≡ some s
    → get_or_alloc_table (table_entry s j) flags st ≡ done (t, st')
    → Opens flags s j t space st'
get_or_alloc_table-Opens root s j flags t at st st' space p high in_half leads e =
    let hj : j < 512 = omega (arith, entries-le at, in_half) in
    let here : IsTaken (remaining space.manager) s = space.tree.table at s p (omega arith) leads in
    elim (get_or_alloc_table-cases s j flags t st st' e) [
      | inl (present, inl (as_was, open_if_asked)) ↦ rw as_was (record {
        user = λ asked. present-user st.mem s j t present (open_if_asked asked);
        keeps = λ r i x hr hi went. went;
      })
      | inl (present, inr opened) ↦
          let v : ℕ = read_u64 st.mem (table_entry s j) in
          rw opened (record {
            user = λ asked. present-opened st.mem s j t present;
            keeps = λ r i x hr hi went.
                write-keeps st.mem s j (bit_or v pte_u) here.0 hj
                  (λ y there. present-opened st.mem s j y (step_down-present st.mem s j y there)) r
                  i x hr.0 hi went;
          })
      | inr (was, (st1, got, made)) ↦
          let fresh : Fresh st st1 space.manager t =
            alloc_table-Fresh st st1 space.manager t space.is_manager space.pool got in
          let t_free = fresh.granted.was_free t (omega arith) (omega arith) in
          let m1 : Mem = zeroed st.mem t in
          let new : Opens flags s j t space
              (record st1 { mem = write_u64 m1 (table_entry s j) (new_entry t flags) }) =
            record {
              user = λ asked.
                  step_down-write_self m1 s j (new_entry t flags) t
                    (new_entry-IsUser t flags fresh.granted.aligned (space.low t t_free) asked);
              keeps = λ r i x hr hi went.
                  let ne = t-ne root s j flags at st space p high in_half leads t st1 fresh r hr in
                  let after : step_down m1 r i ≡ some x =
                    step_down-cong st.mem m1 r i x
                      (read-zeroed_ne st.mem t r i fresh.granted.aligned hr.0 hi ne) went in
                  let shut : (y : ℕ) → step_down m1 s j ≢ some y = λ y there.
                    closed_before st.mem t s j y fresh.granted.aligned here.0 hj
                      (t-ne root s j flags at st space p high in_half leads t st1 fresh s here) was
                      there in
                  write-keeps m1 s j (new_entry t flags) here.0 hj
                    (λ y there. absurd (shut y there)) r i x hr.0 hi after;
            } in
          rw (made, fresh.cleared) new
    ]
