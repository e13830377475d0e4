-- ===== src/Tables/Root.antt =====
-- The first table of an address space of kernel/src/user.rs.
use mantra_os.Common.{
  ℕ, ◌/◌, ◌^◌, ◌<◌, ◌≡◌, refl, sym, subst, ◌∙◌, List, [], ◌∷◌, none, some, true, arith,
}
use mathlib.Core.Option.{some-injective}
use mantra_os.Common.Run.{done}
use mantra_os.Pmm.{Pmm}
use mantra_os.Pmm.Cover.{covers}
use mantra_os.Pmm.Pool.{IsPool, remaining}
use mantra_os.Memory.{Mem, index_at}
use mantra_os.Common.Bits.{bit_and-ones}
use mantra_os.Tables.{Phys, zeroed, alloc_table, step_present, translate_4k}
use mantra_os.Tables.Entries.{step-zeroed_self}
use mantra_os.Tables.Tree.{down, IsPath, IsTaken, Tree}
use mantra_os.Tables.Space.{Space, Fresh, alloc_table-Fresh}

-- Nothing lies below a cleared root.
down-zeroed :
    (m : Mem) (p i : ℕ) (js : List ℕ)
    → IsPath (i ∷ js)
    → down (step_present (zeroed m p)) p (i ∷ js) ≡ none
unfolding down
down-zeroed m p i [] h = step-zeroed_self m p i (omega (arith, h.0))
down-zeroed m p i (j ∷ js) h = rw (down-zeroed m p j js h.1) refl

translate_4k-zeroed : (m : Mem) (p virt : ℕ) → translate_4k (zeroed m p) p virt ≡ none
unfolding translate_4k index_at
translate_4k-zeroed m p virt =
    let small : index_at virt 39 < 512 = omega (arith, bit_and-ones 9 (virt / 2 ^ 39) 0x1ff refl) in
    rw (translate_4k, step-zeroed_self m p (index_at virt 39) small) refl

cleared-path :
    (m : Mem) (p t : ℕ) (js : List ℕ)
    → IsPath js
    → down (step_present (zeroed m p)) p js ≡ some t
    → (js ≡ []) × (p ≡ t)
unfolding down
cleared-path m p t [] h e = (refl, some-injective p t e)
cleared-path m p t (i ∷ js) h e = absurd (ground (arith, down-zeroed m p i js h))

-- Where the free memory is whole pages in order within the reach of an entry, a table that is newly
-- allocated is the root of an address space, and `translate_4k` finds nothing at any address there.
pub alloc_table-Space :
    (pmm : Pmm) (p : ℕ) (st st' : Phys)
    → st.pmm ≡ some pmm
    → IsPool 0 (remaining pmm)
    → ((a : ℕ) → covers (remaining pmm) a ≡ true → a < 2 ^ 52)
    → alloc_table st ≡ done (p, st')
    → Space p st' × ((virt : ℕ) → translate_4k st'.mem p virt ≡ none)
alloc_table-Space pmm p st st' is_pmm pool low e =
    let fresh : Fresh st st' pmm p = alloc_table-Fresh st st' pmm p is_pmm pool e in
    let free = remaining fresh.manager in
    let taken : IsTaken free p =
      (fresh.granted.aligned, fresh.granted.now_taken p (omega arith) (omega arith)) in
    let path = cleared-path st.mem p in
    let tree : Tree (step_present (zeroed st.mem p)) p free = record {
      table = λ js t h le q. subst (IsTaken free) (path t js h q).1 taken;
      distinct = λ is js t h h' le le' q q'. (path t is h q).0 ∙ sym (path t js h' q').0;
    } in
    (
      record {
        manager = fresh.manager;
        is_manager = fresh.is_manager;
        pool = fresh.granted.pool;
        low = λ a c. low a (fresh.granted.shrinks a c);
        tree = subst (λ m. Tree (step_present m) p free) (sym fresh.cleared) tree;
      },
      λ virt.
          subst (λ m. translate_4k m p virt ≡ none) (sym fresh.cleared)
            (translate_4k-zeroed st.mem p virt),
    )
