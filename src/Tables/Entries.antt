-- ===== src/Tables/Entries.antt =====
-- One entry of a page table of kernel/src/user.rs: what a step through it finds after a write or
-- after a page is cleared.
use mantra_os.Common.{
  ℕ, ◌+◌, ◌*◌, ◌/◌, ◌%◌, ◌^◌, ◌≤◌, ◌<◌, ◌≡◌, ◌≢◌, ◌⊎◌, inl, inr, refl, sym, ap, ◌∙◌, ◌==◌,
  if◌then◌else◌, Option, none, some, Bool-cases, arith,
}
use native.Mathlib.Decide.{dec_lt}
use mantra_os.Common.Bits.{bit_and, bit_or, bit_and-ones}
use mantra_os.Common.Flags.{bit_or-high, bit_or_low}
use mantra_os.Memory.{Mem, read_u64, write_u64, frame_mask, pte_p, pte_rw, pte_u}
use mantra_os.Memory.Words.{read_u64-ext, read-write_self, read-write_far, read_u64-zero}
use mantra_os.Memory.Walk.{frame_of_entry}
use mantra_os.Tables.{zeroed, table_entry, has, new_entry, step_present}

-- The step through an entry.
abbrev pub through : ℕ → Option ℕ
through e = if e % 2 == 0 then none else some (e / 4096 % 2 ^ 40 * 4096)

-- The entry is present and names the page at `x`.
abbrev pub Names : ℕ → ℕ → Type 0
Names e x = (e % 2 ≡ 1) × (e / 4096 % 2 ^ 40 * 4096 ≡ x)

low_bit : (e : ℕ) → bit_and e pte_p ≡ e % 2
low_bit e = bit_and-ones 1 e pte_p (omega arith)

pub step_present-through :
    (m : Mem) (t i : ℕ) → step_present m t i ≡ through (read_u64 m (table_entry t i))
unfolding step_present
step_present-through m t i =
    let e : ℕ = read_u64 m (table_entry t i) in rw (low_bit e, frame_of_entry e) refl

pub step-cong :
    (m m' : Mem) (t i : ℕ)
    → read_u64 m' (table_entry t i) ≡ read_u64 m (table_entry t i)
    → step_present m' t i ≡ step_present m t i
step-cong m m' t i e = step_present-through m' t i ∙ ap through e ∙ sym (step_present-through m t i)

through-Names : (e x : ℕ) → Names (e % 2 ^ 64) x → through (e % 2 ^ 64) ≡ some x
through-Names e x h = ground arith

pub step-write_self :
    (m : Mem) (t i e x : ℕ)
    → Names e x
    → step_present (write_u64 m (table_entry t i) e) t i ≡ some x
step-write_self m t i e x h =
    step_present-through (write_u64 m (table_entry t i) e) t i
    ∙ ap through (read-write_self m (table_entry t i) e)
    ∙ through-Names e x (omega arith, omega arith)

-- Entries of page-aligned tables do not overlap.
entries_apart :
    (s t i j : ℕ)
    → s % 4096 ≡ 0
    → t % 4096 ≡ 0
    → i < 512
    → j < 512
    → ((s ≢ t) ⊎ (i ≢ j))
    → (table_entry s i + 8 ≤ table_entry t j) ⊎ (table_entry t j + 8 ≤ table_entry s i)
entries_apart s t i j hs ht hi hj (inl ne) = elim (dec_lt s t) [
  | yes below ↦ inl (omega arith)
  | no above ↦ inr (omega arith)
]
entries_apart s t i j hs ht hi hj (inr ne) = elim (dec_lt (table_entry s i) (table_entry t j)) [
  | yes below ↦ inl (omega arith)
  | no above ↦ inr (omega arith)
]

pub read-write_ne :
    (m : Mem) (s t i j e : ℕ)
    → s % 4096 ≡ 0
    → t % 4096 ≡ 0
    → i < 512
    → j < 512
    → ((s ≢ t) ⊎ (i ≢ j))
    → read_u64 (write_u64 m (table_entry t j) e) (table_entry s i) ≡ read_u64 m (table_entry s i)
read-write_ne m s t i j e hs ht hi hj ne =
    read-write_far m (table_entry t j) e (table_entry s i) (entries_apart s t i j hs ht hi hj ne)

pub step-write_ne :
    (m : Mem) (s t i j e : ℕ)
    → s % 4096 ≡ 0
    → t % 4096 ≡ 0
    → i < 512
    → j < 512
    → ((s ≢ t) ⊎ (i ≢ j))
    → step_present (write_u64 m (table_entry t j) e) s i ≡ step_present m s i
step-write_ne m s t i j e hs ht hi hj ne =
    step-cong m (write_u64 m (table_entry t j) e) s i (read-write_ne m s t i j e hs ht hi hj ne)

pub step-zeroed_self : (m : Mem) (p i : ℕ) → i < 512 → step_present (zeroed m p) p i ≡ none
step-zeroed_self m p i h =
    step_present-through (zeroed m p) p i
    ∙ ap through (read_u64-zero (zeroed m p) (table_entry p i) (λ k hk. ground arith))

pub read-zeroed_ne :
    (m : Mem) (p s i : ℕ)
    → p % 4096 ≡ 0
    → s % 4096 ≡ 0
    → i < 512
    → s ≢ p
    → read_u64 (zeroed m p) (table_entry s i) ≡ read_u64 m (table_entry s i)
read-zeroed_ne m p s i hp hs hi ne =
    read_u64-ext m (zeroed m p) (table_entry s i) (λ k hk. ground arith)

pub step-zeroed_ne :
    (m : Mem) (p s i : ℕ)
    → p % 4096 ≡ 0
    → s % 4096 ≡ 0
    → i < 512
    → s ≢ p
    → step_present (zeroed m p) s i ≡ step_present m s i
step-zeroed_ne m p s i hp hs hi ne =
    step-cong m (zeroed m p) s i (read-zeroed_ne m p s i hp hs hi ne)

-- The entries that the code writes.
pub new_entry-Names : (t flags : ℕ) → t % 4096 ≡ 0 → t < 2 ^ 52 → Names (new_entry t flags) t
new_entry-Names t flags ht hb =
    let e : ℕ = bit_or t (bit_or pte_p pte_rw) in
    let high : e / 4096 ≡ t / 4096 = bit_or-high 12 t (bit_or pte_p pte_rw) (omega arith) in
    let low : e % 2 ≡ 1 = omega (arith, bit_or_low t (bit_or pte_p pte_rw)) in
    let high' : bit_or e pte_u / 4096 ≡ e / 4096 = bit_or-high 12 e pte_u (omega arith) in
    let low' : bit_or e pte_u % 2 ≡ 1 = omega (arith, bit_or_low e pte_u) in
    elim (Bool-cases (has pte_u flags)) [
      | inl user ↦ rw user (low', omega arith)
      | inr system ↦ rw system (low, omega arith)
    ]

pub page_entry-Names :
    (p flags : ℕ)
    → p % 4096 ≡ 0
    → p < 2 ^ 52
    → flags < 4096
    → Names (bit_or p (bit_or pte_p flags)) p
page_entry-Names p flags hp hb hf =
    let bits : ℕ = bit_or pte_p flags in
    let small : bits / 4096 ≡ 0 = bit_or-high 12 pte_p flags (omega arith) ∙ omega arith in
    let high : bit_or p bits / 4096 ≡ p / 4096 = bit_or-high 12 p bits (omega arith) in
    let odd : bits % 2 ≡ 1 = omega (arith, bit_or_low pte_p flags) in
    (omega (arith, bit_or_low p bits), omega arith)

-- Bit 2 does not change where an entry leads.
pub through-user : (e : ℕ) → through (bit_or e pte_u % 2 ^ 64) ≡ through e
through-user e =
    let high : bit_or e pte_u / 4096 ≡ e / 4096 = bit_or-high 12 e pte_u (omega arith) in
    let low : bit_or e pte_u % 2 ≡ e % 2 = omega (arith, bit_or_low e pte_u) in
    let w : ℕ = bit_or e pte_u in
    let high' : w % 2 ^ 64 / 4096 % 2 ^ 40 ≡ e / 4096 % 2 ^ 40 = omega arith in
    let low' : w % 2 ^ 64 % 2 ≡ e % 2 = omega arith in rw (high', low') refl

pub frame-user : (e : ℕ) → bit_and (bit_or e pte_u) frame_mask ≡ bit_and e frame_mask
frame-user e =
    let high : bit_or e pte_u / 4096 ≡ e / 4096 = bit_or-high 12 e pte_u (omega arith) in
    frame_of_entry (bit_or e pte_u) ∙ ap (λ h. h % 2 ^ 40 * 4096) high ∙ sym (frame_of_entry e)
