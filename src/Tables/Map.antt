-- ===== src/Tables/Map.antt =====
-- `map_4k` of kernel/src/user.rs, as `translate_4k` sees it.
use mantra_os.Common.{
  ℕ, ◌≤◌, suc, ◌*◌, ◌/◌, ◌%◌, ◌^◌, ◌<◌, ◌≡◌, ◌≢◌, inl, inr, refl, sym, ap, subst, ◌∙◌, List, [],
  ◌∷◌, some, length, arith,
}
use mantra_os.Common.Run.{done}
use mantra_os.Common.Bits.{bit_or}
use mantra_os.Pmm.Pool.{remaining}
use mantra_os.Memory.{Mem, write_u64, pte_p}
use mantra_os.Tables.{Phys, table_entry, step_present, map_4k}
use mantra_os.Tables.Entries.{step-write_self, step-write_ne, page_entry-Names}
use mantra_os.Tables.Tree.{down, IsPath, IsTaken, Grafts}
use mantra_os.Tables.Grow.{graft-cases, graft-child, page-Tree}
use mantra_os.Tables.Route.{Route, map_4k-Route}
use mantra_os.Tables.Space.{Space}
use mantra_os.Tables.Translate.{
  Mapped, path_of, path_of-IsPath, path_of-page, path_of-injective, at_offset, translate_4k-down,
}

-- The write of a page's entry in a last table.
pub record Placed (root x : ℕ) (at : List ℕ) (st st' : Phys) : Type 0 where
  pub space : Space root st'
  pub there : down (step_present st'.mem) root at ≡ some x
  pub pages :
      (js : List ℕ)
      → IsPath js
      → length js ≡ 4
      → js ≢ at
      → down (step_present st'.mem) root js ≡ down (step_present st.mem) root js
  pub tables :
      (js : List ℕ)
      → IsPath js
      → length js ≤ 3
      → down (step_present st'.mem) root js ≡ down (step_present st.mem) root js

place-Placed :
    (root pt j x flags : ℕ) (at : List ℕ) (st : Phys)
    → Space root st
    → IsPath at
    → length at ≡ 3
    → j < 512
    → x % 4096 ≡ 0
    → x < 2 ^ 52
    → flags < 4096
    → down (step_present st.mem) root at ≡ some pt
    → let m' = write_u64 st.mem (table_entry pt j) (bit_or x (bit_or pte_p flags)) in
      Placed root x (j ∷ at) st (record st { mem = m' })
place-Placed root pt j x flags at st space p last hj hx low hf leads =
    let e : ℕ = bit_or x (bit_or pte_p flags) in
    let m' : Mem = write_u64 st.mem (table_entry pt j) e in
    let f = step_present st.mem in
    let g = step_present m' in
    let free = remaining space.manager in
    let here : IsTaken free pt = space.tree.table at pt p (omega arith) leads in
    let graft : Grafts f g free pt j x = record {
      new = step-write_self st.mem pt j e x (page_entry-Names x flags hx low hf);
      same = λ s i hs hi ne. step-write_ne st.mem s pt i j e hs.0 here.0 hi hj ne;
    } in
    record {
      space = record {
        manager = space.manager;
        is_manager = space.is_manager;
        pool = space.pool;
        low = space.low;
        tree = page-Tree f g root free space.tree pt j x at p (omega arith) leads graft last;
      };
      there = graft-child f g root free space.tree pt j x at p (omega arith) leads graft (inl last);
      pages = λ js q four other.
          elim (graft-cases f g root free space.tree pt j x at p (omega arith) leads graft js
            (inl last) q (omega arith)) [ inl same ↦ same | inr (on, new) ↦ absurd (other on) ];
      tables = λ js q le.
          elim (graft-cases f g root free space.tree pt j x at p (omega arith) leads graft js
            (inl last) q (omega arith)) [
              | inl same ↦ same
              | inr (on, new) ↦
                  let long : length js ≡ 4 = ap length on ∙ ap suc last in absurd (omega arith)
            ];
    }

pub Route-Placed :
    (root virt x flags : ℕ) (st st' : Phys)
    → x % 4096 ≡ 0
    → x < 2 ^ 52
    → flags < 4096
    → virt < 2 ^ 47
    → (r : Route root virt x flags st st') → Placed root x (path_of virt) r.s3 st'
Route-Placed root virt x flags st st' hx low hf user r =
    let p = path_of-IsPath virt user in
    subst (Placed root x (path_of virt) r.s3) r.after (
      place-Placed root r.pt (virt / 2 ^ 12 % 512) x flags
        (virt / 2 ^ 21 % 512 ∷ virt / 2 ^ 30 % 512 ∷ virt / 2 ^ 39 % 512 ∷ []) r.s3 r.level2.space
        p.1 refl (omega arith) hx low hf r.level2.child)

-- For an address below 2^47, a frame below 2^52 and flags in the low 12 bits, in an address space
-- whose tables are a tree outside the free memory: when `map_4k` returns, `translate_4k` takes every
-- address of the page to the frame plus the offset in the page, and every other address below 2^47
-- where it took it before, and the tables are again a tree outside the free memory.
pub map_4k-Mapped :
    (root virt phys flags : ℕ) (st st' : Phys)
    → virt < 2 ^ 47
    → phys < 2 ^ 52
    → flags < 4096
    → Space root st
    → map_4k root virt phys flags st ≡ done (tt, st')
    → Mapped root virt phys st st'
map_4k-Mapped root virt phys flags st st' user low hf space e =
    let x : ℕ = phys / 4096 * 4096 in
    let r : Route root virt x flags st st' =
      map_4k-Route root virt phys flags st st' user low hf space e in
    let placed = Route-Placed root virt x flags st st' (omega arith) (omega arith) hf user r in
    let before = λ (js : List ℕ) (p : IsPath js) (four : length js ≡ 4).
      r.level2.pages js p four ∙ r.level3.pages js p four ∙ r.level4.pages js p four in
    record {
      space = placed.space;
      here = λ a same.
          translate_4k-down st'.mem root a
          ∙ ap (λ js. at_offset a (down (step_present st'.mem) root js)) (path_of-page a virt same)
          ∙ ap (at_offset a) placed.there;
      elsewhere = λ a ha other.
          let p : IsPath (path_of a) = path_of-IsPath a ha in
          let ne : path_of a ≢ path_of virt = λ q. other (path_of-injective a virt ha user q) in
          translate_4k-down st'.mem root a
          ∙ ap (at_offset a) (placed.pages (path_of a) p refl ne ∙ before (path_of a) p refl)
          ∙ sym (translate_4k-down st.mem root a);
    }
