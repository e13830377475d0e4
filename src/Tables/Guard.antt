-- ===== src/Tables/Guard.antt =====
-- Which addresses that `map_4k` of kernel/src/user.rs maps the system calls of
-- kernel/src/arch/x86_64/isr.rs accept from user mode.
use mantra_os.Common.{
  ℕ, ◌+◌, ◌*◌, ◌/◌, ◌%◌, ◌^◌, ◌≤◌, ◌<◌, ◌≡◌, ◌≢◌, inl, inr, refl, sym, ap, subst, ◌∙◌, List, [],
  ◌∷◌, Option, none, some, Option-cases, true, false, length, arith,
}
use mathlib.Core.Option.{some-injective}
use mantra_os.Common.Run.{done}
use mantra_os.Common.Bits.{bit_or}
use mantra_os.Pmm.Pool.{remaining}
use mantra_os.Memory.{Mem, write_u64, step_down, virt_to_phys_in, pte_p, pte_u}
use mantra_os.Tables.{Phys, table_entry, has, step_present, map_4k}
use mantra_os.Tables.User.{
  step_down-cong, step_down-write_self, step_down-closed, page_entry-user, page_entry-IsUser,
  has_no-user,
}
use mantra_os.Tables.Entries.{read-write_ne}
use mantra_os.Tables.Tree.{down, IsPath, IsTaken}
use mantra_os.Tables.Space.{Space}
use mantra_os.Tables.Translate.{path_of, path_of-page, at_offset}
use mantra_os.Tables.Walks.{virt_to_phys_in-down, down-present}
use mantra_os.Tables.Route.{Route, map_4k-Route}
use mantra_os.Tables.Map.{Placed, Route-Placed}
use mantra_os.Tables.Reach.{Opens, get_or_alloc_table-Opens}

module _ (root virt x flags : ℕ) (st st' : Phys) (user : virt < 2 ^ 47) (hx : x % 4096 ≡ 0)
    (low : x < 2 ^ 52) (hf : flags < 4096) (r : Route root virt x flags st st') where
  abbrev j4 : ℕ
  j4 = virt / 2 ^ 39 % 512

  abbrev j3 : ℕ
  j3 = virt / 2 ^ 30 % 512

  abbrev j2 : ℕ
  j2 = virt / 2 ^ 21 % 512

  abbrev j1 : ℕ
  j1 = virt / 2 ^ 12 % 512

  abbrev entry : ℕ
  entry = bit_or x (bit_or pte_p flags)

  p4 : IsPath (j4 ∷ [])
  p4 = (omega arith, tt)

  p3 : IsPath (j3 ∷ j4 ∷ [])
  p3 = (omega arith, p4)

  p2 : IsPath (j2 ∷ j3 ∷ j4 ∷ [])
  p2 = (omega arith, p3)

  pt3 : IsTaken (remaining r.level2.space.manager) r.pt
  pt3 = r.level2.space.tree.table (j2 ∷ j3 ∷ j4 ∷ []) r.pt p2 (omega arith) r.level2.child

  -- The tables above the last one, after the last level is entered.
  pdpt2 : down (step_present r.s2.mem) root (j4 ∷ []) ≡ some r.pdpt
  pdpt2 = r.level3.grows (j4 ∷ []) r.pdpt p4 (omega arith) r.level4.child

  pdpt3 : down (step_present r.s3.mem) root (j4 ∷ []) ≡ some r.pdpt
  pdpt3 = r.level2.grows (j4 ∷ []) r.pdpt p4 (omega arith) pdpt2

  pd3 : down (step_present r.s3.mem) root (j3 ∷ j4 ∷ []) ≡ some r.pd
  pd3 = r.level2.grows (j3 ∷ j4 ∷ []) r.pd p3 (omega arith) r.level3.child

  -- The write of the page's entry keeps the walk through another table.
  above_keeps :
      (js : List ℕ) (t i y : ℕ)
      → IsPath js
      → length js ≤ 2
      → i < 512
      → down (step_present r.s3.mem) root js ≡ some t
      → step_down r.s3.mem t i ≡ some y
      → step_down st'.mem t i ≡ some y
  above_keeps js t i y p le hi at went =
      let tree = r.level2.space.tree in
      let taken = tree.table js t p (omega arith) at in
      let ne : t ≢ r.pt = λ q.
        let same : js ≡ j2 ∷ j3 ∷ j4 ∷ [] =
          tree.distinct js (j2 ∷ j3 ∷ j4 ∷ []) t p p2 (omega arith) (omega arith) at
            (r.level2.child ∙ ap some (sym q)) in
        let long : length js ≡ 3 = ap length same in absurd (omega arith) in
      let m' : Mem = write_u64 r.s3.mem (table_entry r.pt j1) entry in
      subst (λ q. step_down q.mem t i ≡ some y) r.after
        (step_down-cong r.s3.mem m' t i y
          (read-write_ne r.s3.mem t r.pt i j1 entry taken.0 pt3.0 hi (omega arith) (inl ne)) went)

  -- With bit 2 in the flags the walk passes each level.
  open_path : has pte_u flags ≡ true → down (step_down st'.mem) root (path_of virt) ≡ some x
  unfolding down
  open_path asked =
      let o4 : Opens flags root j4 r.pdpt r.space r.s1 =
        get_or_alloc_table-Opens root root j4 flags r.pdpt [] st r.s1 r.space tt (omega arith) p4.0
          refl r.enter4 in
      let o3 : Opens flags r.pdpt j3 r.pd r.level4.space r.s2 =
        get_or_alloc_table-Opens root r.pdpt j3 flags r.pd (j4 ∷ []) r.s1 r.s2 r.level4.space p4
          (omega arith) p3.0 r.level4.child r.enter3 in
      let o2 : Opens flags r.pd j2 r.pt r.level3.space r.s3 =
        get_or_alloc_table-Opens root r.pd j2 flags r.pt (j3 ∷ j4 ∷ []) r.s2 r.s3 r.level3.space p3
          (omega arith) p2.0 r.level3.child r.enter2 in
      let root1 = r.level4.space.tree.table [] root tt (omega arith) refl in
      let root2 = r.level3.space.tree.table [] root tt (omega arith) refl in
      let pdpt_taken = r.level3.space.tree.table (j4 ∷ []) r.pdpt p4 (omega arith) pdpt2 in
      let w4 : step_down st'.mem root j4 ≡ some r.pdpt =
        above_keeps [] root j4 r.pdpt tt (omega arith) (omega arith) refl (
          o2.keeps root j4 r.pdpt root2 (omega arith)
            (o3.keeps root j4 r.pdpt root1 (omega arith) (o4.user asked))) in
      let w3 : step_down st'.mem r.pdpt j3 ≡ some r.pd =
        above_keeps (j4 ∷ []) r.pdpt j3 r.pd p4 (omega arith) (omega arith) pdpt3
          (o2.keeps r.pdpt j3 r.pd pdpt_taken (omega arith) (o3.user asked)) in
      let w2 : step_down st'.mem r.pd j2 ≡ some r.pt =
        above_keeps (j3 ∷ j4 ∷ []) r.pd j2 r.pt p3 (omega arith) (omega arith) pd3
          (o2.user asked) in
      let w1 : step_down st'.mem r.pt j1 ≡ some x =
        subst (λ q. step_down q.mem r.pt j1 ≡ some x) r.after
          (step_down-write_self r.s3.mem r.pt j1 entry x
            (page_entry-IsUser x flags hx low hf asked)) in
      rw (w4, w3, w2) w1

  -- Without it the walk stops at the page's entry.
  closed_path : has pte_u flags ≡ false → down (step_down st'.mem) root (path_of virt) ≡ none
  unfolding down
  closed_path kept =
      let placed : Placed root x (path_of virt) r.s3 st' =
        Route-Placed root virt x flags st st' hx low hf user r in
      let shut : step_down st'.mem r.pt j1 ≡ none =
        subst (λ q. step_down q.mem r.pt j1 ≡ none) r.after
          (step_down-closed r.s3.mem r.pt j1 entry
            (page_entry-user x flags hx ∙ has_no-user flags kept)) in
      elim (Option-cases (down (step_down st'.mem) root (j2 ∷ j3 ∷ j4 ∷ []))) [
        | inl stopped ↦ rw stopped refl
        | inr (q, went) ↦
            let same : some q ≡ some r.pt =
              sym (down-present st'.mem root q (j2 ∷ j3 ∷ j4 ∷ []) went)
              ∙ placed.tables (j2 ∷ j3 ∷ j4 ∷ []) p2 (omega arith)
              ∙ r.level2.child in
            let at : q ≡ r.pt = some-injective q r.pt same in rw (went, at) shut
      ]

-- What a system call finds in the page of `virt`.
pub record Guarded (root virt phys flags : ℕ) (m : Mem) : Type 0 where
  pub reached :
      has pte_u flags ≡ true
      → (a : ℕ) → a / 4096 ≡ virt / 4096
      → virt_to_phys_in m root a ≡ some (phys / 4096 * 4096 + a % 4096)
  pub refused :
      has pte_u flags ≡ false → (a : ℕ) → a / 4096 ≡ virt / 4096 → virt_to_phys_in m root a ≡ none

-- For an address below 2^47, a frame and a root table below 2^52 and flags in the low 12 bits, in an
-- address space whose tables are a tree outside the free memory: when `map_4k` returns, the walk that
-- the system calls make before they touch user memory takes every address of the page to the frame
-- plus the offset in the page if the flags have the user bit, and refuses every address of the page
-- if they have not.
pub map_4k-Guarded :
    (root virt phys flags : ℕ) (st st' : Phys)
    → virt < 2 ^ 47
    → phys < 2 ^ 52
    → root < 2 ^ 52
    → flags < 4096
    → Space root st
    → map_4k root virt phys flags st ≡ done (tt, st')
    → Guarded root virt phys flags st'.mem
unfolding down
map_4k-Guarded root virt phys flags st st' user low low_root hf space e =
    let x : ℕ = phys / 4096 * 4096 in
    let r : Route root virt x flags st st' =
      map_4k-Route root virt phys flags st st' user low hf space e in
    let page = (space.tree.table [] root tt (omega arith) refl).0 in
    let at =
      λ (a : ℕ) (o : Option ℕ) (same : a / 4096 ≡ virt / 4096)
          (goes : down (step_down st'.mem) root (path_of virt) ≡ o).
        virt_to_phys_in-down st'.mem root a page low_root
        ∙ ap (λ js. at_offset a (down (step_down st'.mem) root js)) (path_of-page a virt same)
        ∙ ap (at_offset a) goes in
    record {
      reached = λ asked a same.
          at a (some x) same
            (open_path root virt x flags st st' user (omega arith) (omega arith) hf r asked);
      refused = λ kept a same.
          at a none same
            (closed_path root virt x flags st st' user (omega arith) (omega arith) hf r kept);
    }
