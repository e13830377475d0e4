-- ===== src/Tables/Tree.antt =====
-- Trees of tables, as kernel/src/user.rs builds them: a step leads from a table and an index to a
-- table or a page, and a path of indices, the last one first, leads from the root.
use mantra_os.Common.{
  ℕ, suc, ◌%◌, ◌≤◌, ◌<◌, ◌≡◌, ◌≢◌, ◌⊎◌, inl, inr, refl, sym, ap, ap₂, ◌∙◌, List, [], ◌∷◌, Option,
  none, some, Option-cases, length, false, arith,
}
use native.Mathlib.Decide.{ℕ_discrete}
use mantra_os.Pmm.{Range}
use mantra_os.Pmm.Cover.{covers}

abbrev pub Step : Type 0
Step = ℕ → ℕ → Option ℕ

-- A step from where a path leads.
abbrev pub follow : Step → Option ℕ → ℕ → Option ℕ
follow f none i = none
follow f (some t) i = f t i

unfoldable pub down : Step → ℕ → List ℕ → Option ℕ
down f root [] = some root
down f root (i ∷ js) = follow f (down f root js) i

-- How many entries of the table at a path belong to user space: half of the root, else all.
abbrev pub entries : List ℕ → ℕ
entries [] = 256
entries (i ∷ js) = 512

abbrev pub IsPath : List ℕ → Type 0
IsPath [] = Unit {0}
IsPath (i ∷ js) = (i < entries js) × IsPath js

-- A page of its own, outside the free ones.
abbrev pub IsTaken : List Range → ℕ → Type 0
IsTaken free t = (t % 4096 ≡ 0) × (covers free t ≡ false)

-- The paths of up to three indices lead to tables, each to another one.
pub record Tree (f : Step) (root : ℕ) (free : List Range) : Type 0 where
  pub table :
      (js : List ℕ) (t : ℕ) → IsPath js → length js ≤ 3 → down f root js ≡ some t → IsTaken free t
  pub distinct :
      (is js : List ℕ) (t : ℕ)
      → IsPath is
      → IsPath js
      → length is ≤ 3
      → length js ≤ 3
      → down f root is ≡ some t
      → down f root js ≡ some t
      → is ≡ js

pub entries-le : (js : List ℕ) → entries js ≤ 512
entries-le [] = omega arith
entries-le (i ∷ js) = omega arith

-- `g` differs from `f`, on tables, at most at entry `j` of the table at `t`, which leads to `x`.
pub record Grafts (f g : Step) (free : List Range) (t j x : ℕ) : Type 0 where
  pub new : g t j ≡ some x
  pub same : (s i : ℕ) → IsTaken free s → i < 512 → ((s ≢ t) ⊎ (i ≢ j)) → g s i ≡ f s i

-- The entry is one of a last table, or new and leads to an empty table.
abbrev pub IsEnd : Step → Step → ℕ → ℕ → ℕ → List ℕ → Type 0
IsEnd f g t j x at = (length at ≡ 3) ⊎ ((f t j ≡ none) × ((i : ℕ) → i < 512 → g x i ≡ none))

module _ (f g : Step) (root : ℕ) (free : List Range) (tree : Tree f root free) (t j x : ℕ)
    (at : List ℕ) (at-IsPath : IsPath at) (short : length at ≤ 3) (leads : down f root at ≡ some t)
    (graft : Grafts f g free t j x) where
  -- What a step does where the paths so far agree.
  down-step :
      (i : ℕ) (js : List ℕ)
      → IsPath (i ∷ js)
      → length js ≤ 3
      → down g root js ≡ down f root js
      → (down g root (i ∷ js) ≡ down f root (i ∷ js))
        ⊎ ((i ∷ js ≡ j ∷ at) × (down g root (i ∷ js) ≡ some x))
  unfolding down
  down-step i js p le same = elim (Option-cases (down f root js)) [
    | inl out ↦ inl (rw (same, out) refl)
    | inr (s, e) ↦
        let taken : IsTaken free s = tree.table js s p.1 le e in
        let in_table : i < 512 = omega (arith, entries-le js, p.0) in
        elim (ℕ_discrete s t) [
          | no other ↦ inl (rw (same, e) (graft.same s i taken in_table (inl other)))
          | yes here ↦ elim (ℕ_discrete i j) [
            | no other ↦ inl (rw (same, e) (graft.same s i taken in_table (inr other)))
            | yes entry ↦
                let q : js ≡ at =
                  tree.distinct js at s p.1 at-IsPath le short e (leads ∙ ap some (sym here)) in
                inr (ap₂ (λ a b. a ∷ b) entry q, rw (same, e, here, entry) graft.new)
          ]
        ]
  ]

  -- Where a path of up to four indices leads after the change.
  pub down-graft :
      (js : List ℕ)
      → IsEnd f g t j x at
      → IsPath js
      → length js ≤ 4
      → (down g root js ≡ down f root js) ⊎ ((js ≡ j ∷ at) × (down g root js ≡ some x))
  unfolding down
  down-graft [] end p le = inl refl
  down-graft (i ∷ js) end p le = elim (down-graft js end p.1 (omega arith)) [
    | inl same ↦ down-step i js p (omega arith) same
    | inr (here, new) ↦ elim end [
      | inl last ↦ let long : length js ≡ 4 = ap length here ∙ ap suc last in absurd (omega arith)
      | inr (was, empty) ↦
          let in_table : i < 512 = omega (arith, entries-le js, p.0) in
          let old : down f root js ≡ none = ap (down f root) here ∙ rw leads was in
          inl (rw (new, old) (empty i in_table))
    ]
  ]
