-- ===== src/Tables/Route.antt =====
-- The way of `map_4k` of kernel/src/user.rs through the tables.
use mantra_os.Common.{
  ℕ, ◌*◌, ◌/◌, ◌%◌, ◌^◌, ◌<◌, ◌≡◌, inl, inr, refl, sym, subst, ◌∙◌, [], ◌∷◌, arith,
}
use mantra_os.Common.Run.{done, Run-cases}
use mantra_os.Common.Bits.{bit_or}
use mantra_os.Pmm.Align.{align_down, align_down-page}
use mantra_os.Memory.{write_u64, index_at, pte_p}
use mantra_os.Memory.Walk.{index_at_lem}
use mantra_os.Tables.{Phys, Build, ◌>>=◌, table_entry, get_or_alloc_table, map_4k}
use mantra_os.Tables.Tree.{down, IsPath}
use mantra_os.Tables.Space.{Space, Entered}
use mantra_os.Tables.Enter.{get_or_alloc_table-Entered}

-- A chain that returns has returned at each of its steps.
pub bind-done :
    {A B : Type 0} (x : Build A) (next : A → Build B) (st st' : Phys) (b : B)
    → (x >>= next) st ≡ done (b, st')
    → (a : A) × ((st1 : Phys) × (x st ≡ done (a, st1)) × (next a st1 ≡ done (b, st')))
bind-done x next st st' b e = elim (Run-cases (x st)) [
  | inl failed ↦ absurd (ground arith)
  | inr ((a, st1), made) ↦ (a, (st1, made, sym (rw (◌>>=◌, made) refl) ∙ e))
]

-- The tables that `map_4k` enters for the page of `virt`, with the state after each, and the state
-- after the write of the entry for the frame at `x`.
pub record Route (root virt x flags : ℕ) (st st' : Phys) : Type 0 where
  pub space : Space root st
  pub pdpt : ℕ
  pub pd : ℕ
  pub pt : ℕ
  pub s1 : Phys
  pub s2 : Phys
  pub s3 : Phys
  pub enter4 :
      get_or_alloc_table (table_entry root (virt / 2 ^ 39 % 512)) flags st ≡ done (pdpt, s1)
  pub enter3 : get_or_alloc_table (table_entry pdpt (virt / 2 ^ 30 % 512)) flags s1 ≡ done (pd, s2)
  pub enter2 : get_or_alloc_table (table_entry pd (virt / 2 ^ 21 % 512)) flags s2 ≡ done (pt, s3)
  pub level4 : Entered root (virt / 2 ^ 39 % 512) [] st s1 pdpt
  pub level3 : Entered root (virt / 2 ^ 30 % 512) (virt / 2 ^ 39 % 512 ∷ []) s1 s2 pd
  pub level2 :
      Entered root (virt / 2 ^ 21 % 512) (virt / 2 ^ 30 % 512 ∷ virt / 2 ^ 39 % 512 ∷ []) s2 s3 pt
  pub after :
      record s3 {
        mem =
            write_u64 s3.mem (table_entry pt (virt / 2 ^ 12 % 512)) (bit_or x (bit_or pte_p flags));
      }
      ≡ st'

module _ (root virt phys flags : ℕ) (st st' : Phys) (user : virt < 2 ^ 47) (low : phys < 2 ^ 52)
    (hf : flags < 4096) where
  abbrev page : ℕ
  page = align_down virt 4096

  page_index : (shift i : ℕ) → page / 2 ^ shift % 512 ≡ i → index_at page shift ≡ i
  page_index shift i e = index_at_lem page shift ∙ e

  page_value : page ≡ virt / 4096 * 4096
  page_value = align_down-page virt (omega arith)

  frame_value : align_down phys 4096 ≡ phys / 4096 * 4096
  frame_value = align_down-page phys (omega arith)

  pub map_4k-Route :
      Space root st
      → map_4k root virt phys flags st ≡ done (tt, st')
      → Route root virt (phys / 4096 * 4096) flags st st'
  unfolding map_4k down
  map_4k-Route space e =
      let i4 : index_at page 39 ≡ virt / 2 ^ 39 % 512 =
        page_index 39 (virt / 2 ^ 39 % 512) (omega (arith, page_value)) in
      let i3 : index_at page 30 ≡ virt / 2 ^ 30 % 512 =
        page_index 30 (virt / 2 ^ 30 % 512) (omega (arith, page_value)) in
      let i2 : index_at page 21 ≡ virt / 2 ^ 21 % 512 =
        page_index 21 (virt / 2 ^ 21 % 512) (omega (arith, page_value)) in
      let i1 : index_at page 12 ≡ virt / 2 ^ 12 % 512 =
        page_index 12 (virt / 2 ^ 12 % 512) (omega (arith, page_value)) in
      let (pdpt, (s1, e4, r4)) =
        bind-done (get_or_alloc_table (table_entry root (index_at page 39)) flags) _ st st' tt e in
      let (pd, (s2, e3, r3)) =
        bind-done (get_or_alloc_table (table_entry pdpt (index_at page 30)) flags) _ s1 st' tt r4 in
      let (pt, (s3, e2, r2)) =
        bind-done (get_or_alloc_table (table_entry pd (index_at page 21)) flags) _ s2 st' tt r3 in
      let j4 : ℕ = virt / 2 ^ 39 % 512 in
      let j3 : ℕ = virt / 2 ^ 30 % 512 in
      let j2 : ℕ = virt / 2 ^ 21 % 512 in
      let j1 : ℕ = virt / 2 ^ 12 % 512 in
      let x : ℕ = phys / 4096 * 4096 in
      let p4 : IsPath (j4 ∷ []) = (omega arith, tt) in
      let p3 : IsPath (j3 ∷ j4 ∷ []) = (omega arith, p4) in
      let p2 : IsPath (j2 ∷ j3 ∷ j4 ∷ []) = (omega arith, p3) in
      let f4 : get_or_alloc_table (table_entry root j4) flags st ≡ done (pdpt, s1) =
        subst (λ i. get_or_alloc_table (table_entry root i) flags st ≡ done (pdpt, s1)) i4 e4 in
      let f3 : get_or_alloc_table (table_entry pdpt j3) flags s1 ≡ done (pd, s2) =
        subst (λ i. get_or_alloc_table (table_entry pdpt i) flags s1 ≡ done (pd, s2)) i3 e3 in
      let f2 : get_or_alloc_table (table_entry pd j2) flags s2 ≡ done (pt, s3) =
        subst (λ i. get_or_alloc_table (table_entry pd i) flags s2 ≡ done (pt, s3)) i2 e2 in
      let n4 : Entered root j4 [] st s1 pdpt =
        get_or_alloc_table-Entered root root j4 flags [] st space tt (omega arith) p4.0 refl pdpt s1
          f4 in
      let n3 : Entered root j3 (j4 ∷ []) s1 s2 pd =
        get_or_alloc_table-Entered root pdpt j3 flags (j4 ∷ []) s1 n4.space p4 (omega arith) p3.0
          n4.child pd s2 f3 in
      let n2 : Entered root j2 (j3 ∷ j4 ∷ []) s2 s3 pt =
        get_or_alloc_table-Entered root pd j2 flags (j3 ∷ j4 ∷ []) s2 n3.space p3 (omega arith) p2.0
          n3.child pt s3 f2 in
      record {
        space = space;
        pdpt = pdpt;
        pd = pd;
        pt = pt;
        s1 = s1;
        s2 = s2;
        s3 = s3;
        enter4 = f4;
        enter3 = f3;
        enter2 = f2;
        level4 = n4;
        level3 = n3;
        level2 = n2;
        after = ground (arith, i1, frame_value, r2);
      }
