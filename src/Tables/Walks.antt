-- ===== src/Tables/Walks.antt =====
-- The page walk of kernel/src/arch/x86_64/isr.rs as a path through the tables.
use mantra_os.Common.{
  ℕ, ◌%◌, ◌^◌, ◌<◌, ◌≡◌, inl, inr, refl, sym, ap, ◌∙◌, List, [], ◌∷◌, some, Option-cases, arith,
}
use mantra_os.Common.Bits.{bit_and, bit_and-ones}
use mantra_os.Memory.{Mem, index_at, step_down, walk, virt_to_phys_in, frame_mask}
use mantra_os.Memory.Walk.{index_at_lem, frame_of_entry}
use mantra_os.Tables.{step_present}
use mantra_os.Tables.Tree.{down}
use mantra_os.Tables.User.{step_down-present}
use mantra_os.Tables.Translate.{path_of, at_offset, levels}

walk-levels :
    (m : Mem) (root a : ℕ)
    → walk m root a
      ≡ at_offset a (
          levels (step_down m) root (index_at a 39) (index_at a 30) (index_at a 21) (index_at a 12))
unfolding walk
walk-levels m root a =
    let f = step_down m in
    let off : bit_and a 0xfff ≡ a % 4096 = bit_and-ones 12 a 0xfff (omega arith) in
    elim (Option-cases (f root (index_at a 39))) [
      | inl out ↦ rw (walk, out) refl
      | inr (pdpt, e4) ↦ elim (Option-cases (f pdpt (index_at a 30))) [
        | inl out ↦ rw (walk, e4, out) refl
        | inr (pd, e3) ↦ elim (Option-cases (f pd (index_at a 21))) [
          | inl out ↦ rw (walk, e4, e3, out) refl
          | inr (pt, e2) ↦ elim (Option-cases (f pt (index_at a 12))) [
            | inl out ↦ rw (walk, e4, e3, e2, out) refl
            | inr (frame, e1) ↦ rw (walk, e4, e3, e2, e1, off) refl
          ]
        ]
      ]
    ]

-- The walk that a system call makes, as a path.
pub virt_to_phys_in-down :
    (m : Mem) (root a : ℕ)
    → root % 4096 ≡ 0
    → root < 2 ^ 52
    → virt_to_phys_in m root a ≡ at_offset a (down (step_down m) root (path_of a))
unfolding virt_to_phys_in down
virt_to_phys_in-down m root a hr low =
    let here : bit_and root frame_mask ≡ root = frame_of_entry root ∙ omega arith in
    ap (λ r. walk m r a) here
    ∙ walk-levels m root a
    ∙ rw (index_at_lem a 39, index_at_lem a 30, index_at_lem a 21, index_at_lem a 12) refl

-- The walk goes only where the tables lead.
pub down-present :
    (m : Mem) (root t : ℕ) (js : List ℕ)
    → down (step_down m) root js ≡ some t
    → down (step_present m) root js ≡ some t
unfolding down
down-present m root t [] e = e
down-present m root t (i ∷ js) e = elim (Option-cases (down (step_down m) root js)) [
  | inl out ↦ absurd (ground arith)
  | inr (s, there) ↦
      rw (down-present m root s js there) (step_down-present m s i t (sym (rw there refl) ∙ e))
]
