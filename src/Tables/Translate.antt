-- ===== src/Tables/Translate.antt =====
-- `translate_4k` and `map_4k` of kernel/src/user.rs, each against the other.
use mantra_os.Common.{
  ℕ, ◌+◌, ◌*◌, ◌/◌, ◌%◌, ◌^◌, ◌<◌, ◌≡◌, ◌≢◌, inl, inr, refl, ap, ◌∙◌, List, [], ◌∷◌, Option, none,
  some, Option-cases, get_or, arith,
}
use mantra_os.Common.Bits.{bit_and, bit_and-ones}
use mantra_os.Memory.{Mem, index_at}
use mantra_os.Memory.Walk.{index_at_lem}
use mantra_os.Tables.{Phys, step_present, translate_4k}
use mantra_os.Tables.Tree.{Step, follow, down, IsPath}
use mantra_os.Tables.Space.{Space}

-- The indices of an address, the last level first.
abbrev pub path_of : ℕ → List ℕ
path_of a = a / 2 ^ 12 % 512 ∷ a / 2 ^ 21 % 512 ∷ a / 2 ^ 30 % 512 ∷ a / 2 ^ 39 % 512 ∷ []

pub path_of-IsPath : (a : ℕ) → a < 2 ^ 47 → IsPath (path_of a)
path_of-IsPath a h = (omega arith, (omega arith, (omega arith, (omega arith, tt))))

pub path_of-page : (a b : ℕ) → a / 4096 ≡ b / 4096 → path_of a ≡ path_of b
path_of-page a b e =
    let i1 : a / 2 ^ 12 % 512 ≡ b / 2 ^ 12 % 512 = omega arith in
    let i2 : a / 2 ^ 21 % 512 ≡ b / 2 ^ 21 % 512 = omega arith in
    let i3 : a / 2 ^ 30 % 512 ≡ b / 2 ^ 30 % 512 = omega arith in
    let i4 : a / 2 ^ 39 % 512 ≡ b / 2 ^ 39 % 512 = omega arith in rw (i1, i2, i3, i4) refl

-- Addresses of user space with the same indices are in the same page.
pub path_of-injective :
    (a b : ℕ) → a < 2 ^ 47 → b < 2 ^ 47 → path_of a ≡ path_of b → a / 4096 ≡ b / 4096
path_of-injective a b ha hb e =
    let i1 : a / 2 ^ 12 % 512 ≡ b / 2 ^ 12 % 512 = ap (λ js. get_or js 0 0) e in
    let i2 : a / 2 ^ 21 % 512 ≡ b / 2 ^ 21 % 512 = ap (λ js. get_or js 1 0) e in
    let i3 : a / 2 ^ 30 % 512 ≡ b / 2 ^ 30 % 512 = ap (λ js. get_or js 2 0) e in
    let i4 : a / 2 ^ 39 % 512 ≡ b / 2 ^ 39 % 512 = ap (λ js. get_or js 3 0) e in omega arith

-- The offset in a page put back.
abbrev pub at_offset : ℕ → Option ℕ → Option ℕ
at_offset a none = none
at_offset a (some frame) = some (frame + a % 4096)

-- Four steps, by the indices.
abbrev pub levels : Step → ℕ → ℕ → ℕ → ℕ → ℕ → Option ℕ
levels f root i4 i3 i2 i1 = follow f (follow f (follow f (f root i4) i3) i2) i1

translate_4k-levels :
    (m : Mem) (root a : ℕ)
    → translate_4k m root a
      ≡ at_offset a (
          levels
            (step_present m)
            root
            (index_at a 39)
            (index_at a 30)
            (index_at a 21)
            (index_at a 12))
unfolding translate_4k
translate_4k-levels m root a =
    let f = step_present m in
    let off : bit_and a 0xfff ≡ a % 4096 = bit_and-ones 12 a 0xfff (omega arith) in
    elim (Option-cases (f root (index_at a 39))) [
      | inl out ↦ rw (translate_4k, out) refl
      | inr (pdpt, e4) ↦ elim (Option-cases (f pdpt (index_at a 30))) [
        | inl out ↦ rw (translate_4k, e4, out) refl
        | inr (pd, e3) ↦ elim (Option-cases (f pd (index_at a 21))) [
          | inl out ↦ rw (translate_4k, e4, e3, out) refl
          | inr (pt, e2) ↦ elim (Option-cases (f pt (index_at a 12))) [
            | inl out ↦ rw (translate_4k, e4, e3, e2, out) refl
            | inr (frame, e1) ↦ rw (translate_4k, e4, e3, e2, e1, off) refl
          ]
        ]
      ]
    ]

pub translate_4k-down :
    (m : Mem) (root a : ℕ)
    → translate_4k m root a ≡ at_offset a (down (step_present m) root (path_of a))
unfolding down
translate_4k-down m root a =
    translate_4k-levels m root a
    ∙ rw (index_at_lem a 39, index_at_lem a 30, index_at_lem a 21, index_at_lem a 12) refl

-- What mapping the page of `virt` onto that of `phys` does.
pub record Mapped (root virt phys : ℕ) (st st' : Phys) : Type 0 where
  pub space : Space root st'
  pub here :
      (a : ℕ)
      → a / 4096 ≡ virt / 4096
      → translate_4k st'.mem root a ≡ some (phys / 4096 * 4096 + a % 4096)
  pub elsewhere :
      (a : ℕ)
      → a < 2 ^ 47
      → a / 4096 ≢ virt / 4096
      → translate_4k st'.mem root a ≡ translate_4k st.mem root a
