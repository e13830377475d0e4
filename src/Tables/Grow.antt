-- ===== src/Tables/Grow.antt =====
-- How a tree of tables changes: a new table, a new page, and an entry that only gains a bit.
use mantra_os.Common.{
  ℕ, suc, ◌≤◌, ◌<◌, ◌≡◌, ◌≢◌, ◌⊎◌, inl, inr, refl, sym, ap, subst, ◌∙◌, List, [], ◌∷◌, none, some,
  true, Bool-cases, Option-cases, length, arith,
}
use mathlib.Core.Option.{some-injective}
use mathlib.Core.Bool.{false≢true}
use mantra_os.Pmm.{Range}
use mantra_os.Pmm.Cover.{covers}
use mantra_os.Tables.Tree.{Step, down, IsPath, IsTaken, Tree, Grafts, IsEnd, entries-le, down-graft}

-- A path that leads as before leads into the same tree.
pub Tree-same :
    (f g : Step) (root : ℕ) (free : List Range)
    → ((js : List ℕ) → IsPath js → length js ≤ 3 → down g root js ≡ down f root js)
    → Tree f root free
    → Tree g root free
Tree-same f g root free same tree = record {
  table = λ js t p le e. tree.table js t p le (sym (same js p le) ∙ e);
  distinct = λ is js t p q le le' e e'.
      tree.distinct is js t p q le le' (sym (same is p le) ∙ e) (sym (same js q le') ∙ e');
}

-- Steps from tables that are as before give paths that are as before.
pub down-same :
    (f g : Step) (root : ℕ) (free : List Range)
    → Tree f root free
    → ((s i : ℕ) → IsTaken free s → i < 512 → g s i ≡ f s i)
    → (js : List ℕ) → IsPath js
    → length js ≤ 4
    → down g root js ≡ down f root js
unfolding down
down-same f g root free tree same [] p le = refl
down-same f g root free tree same (i ∷ js) p le =
    let ih : down g root js ≡ down f root js =
      down-same f g root free tree same js p.1 (omega arith) in
    elim (Option-cases (down f root js)) [
      | inl out ↦ rw (ih, out) refl
      | inr (s, e) ↦
          rw (ih, e)
            (same s i (tree.table js s p.1 (omega arith) e) (omega (arith, entries-le js, p.0)))
    ]

-- What was not free is not free later.
IsTaken-shrink :
    (free free' : List Range) (t : ℕ)
    → ((a : ℕ) → covers free' a ≡ true → covers free a ≡ true)
    → IsTaken free t
    → IsTaken free' t
IsTaken-shrink free free' t shrinks h = (
  h.0,
  elim (Bool-cases (covers free' t)) [
    | inl on ↦ absurd (false≢true (sym h.1 ∙ shrinks t on))
    | inr off ↦ off
  ],
)

module _ (f g : Step) (root : ℕ) (free : List Range) (tree : Tree f root free) (t j x : ℕ)
    (at : List ℕ) (at-IsPath : IsPath at) (short : length at ≤ 3) (leads : down f root at ≡ some t)
    (graft : Grafts f g free t j x) where
  pub graft-cases :
      (js : List ℕ)
      → IsEnd f g t j x at
      → IsPath js
      → length js ≤ 4
      → (down g root js ≡ down f root js) ⊎ ((js ≡ j ∷ at) × (down g root js ≡ some x))
  graft-cases = down-graft f g root free tree t j x at at-IsPath short leads graft

  -- The table is where it was, and its entry leads to `x`.
  pub graft-child : IsEnd f g t j x at → down g root (j ∷ at) ≡ some x
  unfolding down
  graft-child end = elim (graft-cases at end at-IsPath (omega arith)) [
    | inl same ↦ rw (same, leads) graft.new
    | inr (longer, new) ↦
        let long : length at ≡ suc (length at) = ap length longer in absurd (omega arith)
  ]

  -- A new page under a last table.
  pub page-Tree : length at ≡ 3 → Tree g root free
  page-Tree last =
      Tree-same f g root free
        (λ js p le. elim (graft-cases js (inl last) p (omega arith)) [
          | inl same ↦ same
          | inr (here, new) ↦
              let long : length js ≡ 4 = ap length here ∙ ap suc last in absurd (omega arith)
        ])
        tree

  -- A new table, which was a free page.
  module _ (empty : (f t j ≡ none) × ((i : ℕ) → i < 512 → g x i ≡ none)) (free' : List Range)
      (was_free : covers free x ≡ true) (fresh : IsTaken free' x)
      (shrinks : (a : ℕ) → covers free' a ≡ true → covers free a ≡ true) where
    -- No path led to the new table.
    fresh-ne : (js : List ℕ) → IsPath js → length js ≤ 3 → down f root js ≢ some x
    fresh-ne js p le e = false≢true (sym (tree.table js x p le e).1 ∙ was_free)

    table_after :
        (js : List ℕ) (s : ℕ)
        → IsPath js
        → length js ≤ 3
        → down g root js ≡ some s
        → IsTaken free' s
    table_after js s p le e = elim (graft-cases js (inr empty) p (omega arith)) [
      | inl same ↦ IsTaken-shrink free free' s shrinks (tree.table js s p le (sym same ∙ e))
      | inr (here, new) ↦ subst (IsTaken free') (some-injective x s (sym new ∙ e)) fresh
    ]

    distinct_after :
        (is js : List ℕ) (s : ℕ)
        → IsPath is
        → IsPath js
        → length is ≤ 3
        → length js ≤ 3
        → down g root is ≡ some s
        → down g root js ≡ some s
        → is ≡ js
    distinct_after is js s p q le le' e e' = elim (graft-cases is (inr empty) p (omega arith)) [
      | inl same ↦ elim (graft-cases js (inr empty) q (omega arith)) [
        | inl same' ↦ tree.distinct is js s p q le le' (sym same ∙ e) (sym same' ∙ e')
        | inr (here, new) ↦ absurd (fresh-ne is p le (sym same ∙ e ∙ sym e' ∙ new))
      ]
      | inr (here, new) ↦ elim (graft-cases js (inr empty) q (omega arith)) [
        | inl same' ↦ absurd (fresh-ne js q le' (sym same' ∙ e' ∙ sym e ∙ new))
        | inr (here', new') ↦ here ∙ sym here'
      ]
    ]

    pub table-Tree : Tree g root free'
    table-Tree = record { table = table_after; distinct = distinct_after }

    -- Every table is where it was.
    pub table-grows :
        (js : List ℕ) (s : ℕ)
        → IsPath js
        → length js ≤ 3
        → down f root js ≡ some s
        → down g root js ≡ some s
    unfolding down
    table-grows js s p le e = elim (graft-cases js (inr empty) p (omega arith)) [
      | inl same ↦ same ∙ e
      | inr (here, new) ↦
          let old : down f root js ≡ none = ap (down f root) here ∙ rw leads empty.0 in
          absurd (ground arith)
    ]

    -- No path of four indices leads anywhere else.
    pub table-pages :
        length at ≤ 2 → (js : List ℕ) → IsPath js → length js ≡ 4 → down g root js ≡ down f root js
    table-pages high js p le = elim (graft-cases js (inr empty) p (omega arith)) [
      | inl same ↦ same
      | inr (here, new) ↦
          let long : length js ≡ suc (length at) = ap length here in absurd (omega arith)
    ]
