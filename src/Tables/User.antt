-- ===== src/Tables/User.antt =====
-- User mode in the page tables of kernel/src/user.rs: what the entries that it writes mean to the page
-- walk of kernel/src/arch/x86_64/isr.rs.
use mantra_os.Common.{
  ℕ, ◌*◌, ◌/◌, ◌%◌, ◌^◌, ◌<◌, max, ◌≡◌, inl, inr, sym, ap, subst, ◌∙◌, true, false, none, some,
  Option-cases, arith,
}
use mantra_os.Common.Bits.{bit_and, bit_or, bit_and-ones, bit_and-shifted}
use mantra_os.Common.Flags.{bit_or-shifted, bit_or-high, bit_or_low}
use mantra_os.Memory.{Mem, read_u64, write_u64, step_down, pte_p, pte_rw, pte_u}
use mantra_os.Memory.Words.{read-write_self}
use mantra_os.Memory.Walk.{IsUserEntry, step_down-LeadsTo}
use mantra_os.Tables.{table_entry, has, new_entry, step_present}
use mantra_os.Tables.Entries.{
  through, step_present-through, Names, new_entry-Names, page_entry-Names,
}

-- Bit 2.
pub has-user : (v : ℕ) → has pte_u v ≡ true → v / 4 % 2 ≡ 1
has-user v e =
    let bit : bit_and v pte_u ≡ v / 4 % 2 * 4 =
      bit_and-shifted 2 v 1 ∙ ap (λ t. t * 4) (bit_and-ones 1 (v / 4) 1 (omega arith)) in
    ground (arith, bit)

pub has_no-user : (v : ℕ) → has pte_u v ≡ false → v / 4 % 2 ≡ 0
has_no-user v e =
    let bit : bit_and v pte_u ≡ v / 4 % 2 * 4 =
      bit_and-shifted 2 v 1 ∙ ap (λ t. t * 4) (bit_and-ones 1 (v / 4) 1 (omega arith)) in
    ground (arith, bit)

user_bit_or : (a b : ℕ) → bit_or a b / 4 % 2 ≡ max (a / 4 % 2) (b / 4 % 2)
user_bit_or a b = ap (λ t. t % 2) (bit_or-shifted 2 a b) ∙ bit_or_low (a / 4) (b / 4)

pub new_entry-IsUser :
    (t flags : ℕ)
    → t % 4096 ≡ 0
    → t < 2 ^ 52
    → has pte_u flags ≡ true
    → IsUserEntry (new_entry t flags) t
new_entry-IsUser t flags ht hb user =
    let names : Names (new_entry t flags) t = new_entry-Names t flags ht hb in
    let e : ℕ = bit_or t (bit_or pte_p pte_rw) in
    let open_e : bit_or e pte_u / 4 % 2 ≡ 1 = omega (arith, user_bit_or e pte_u) in
    (names.0, rw user open_e, sym names.1)

pub page_entry-user :
    (p flags : ℕ) → p % 4096 ≡ 0 → bit_or p (bit_or pte_p flags) / 4 % 2 ≡ flags / 4 % 2
page_entry-user p flags hp =
    omega (arith, user_bit_or p (bit_or pte_p flags), user_bit_or pte_p flags)

pub page_entry-IsUser :
    (p flags : ℕ)
    → p % 4096 ≡ 0
    → p < 2 ^ 52
    → flags < 4096
    → has pte_u flags ≡ true
    → IsUserEntry (bit_or p (bit_or pte_p flags)) p
page_entry-IsUser p flags hp hb hf user =
    let names : Names (bit_or p (bit_or pte_p flags)) p = page_entry-Names p flags hp hb hf in
    (names.0, page_entry-user p flags hp ∙ has-user flags user, sym names.1)

-- The step of the walk through an entry, and through the same entry elsewhere.
pub step_down-cong :
    (m m' : Mem) (t i x : ℕ)
    → read_u64 m' (table_entry t i) ≡ read_u64 m (table_entry t i)
    → step_down m t i ≡ some x
    → step_down m' t i ≡ some x
step_down-cong m m' t i x same e =
    (step_down-LeadsTo m' t i x).1
      (subst (λ v. IsUserEntry v x) (sym same) ((step_down-LeadsTo m t i x).0 e))

pub step_down-write_self :
    (m : Mem) (t i e x : ℕ)
    → IsUserEntry e x
    → step_down (write_u64 m (table_entry t i) e) t i ≡ some x
step_down-write_self m t i e x h =
    let entry : ℕ = table_entry t i in
    let word : IsUserEntry (e % 2 ^ 64) x = (omega arith, omega arith, omega arith) in
    (step_down-LeadsTo (write_u64 m entry e) t i x).1
      (subst (λ v. IsUserEntry v x) (sym (read-write_self m entry e)) word)

-- An entry that is not open stops the walk.
pub step_down-closed :
    (m : Mem) (t i e : ℕ) → e / 4 % 2 ≡ 0 → step_down (write_u64 m (table_entry t i) e) t i ≡ none
step_down-closed m t i e shut =
    let entry : ℕ = table_entry t i in
    let m' : Mem = write_u64 m entry e in
    elim (Option-cases (step_down m' t i)) [
      | inl stopped ↦ stopped
      | inr (x, went) ↦
          let leads : IsUserEntry (read_u64 m' entry) x = (step_down-LeadsTo m' t i x).0 went in
          absurd (omega (arith, leads.1, read-write_self m entry e))
    ]

through-some : (v x : ℕ) → through v ≡ some x → (v % 2 ≡ 1) × (x ≡ v / 4096 % 2 ^ 40 * 4096)
through-some v x e = ground arith

-- A present entry, where bit 2 is set or is set now.
pub present-user :
    (m : Mem) (t i x : ℕ)
    → step_present m t i ≡ some x
    → has pte_u (read_u64 m (table_entry t i)) ≡ true
    → step_down m t i ≡ some x
present-user m t i x e user =
    let v : ℕ = read_u64 m (table_entry t i) in
    let leads = through-some v x (sym (step_present-through m t i) ∙ e) in
    (step_down-LeadsTo m t i x).1 (leads.0, has-user v user, leads.1)

pub present-opened :
    (m : Mem) (t i x : ℕ)
    → step_present m t i ≡ some x
    → let entry = table_entry t i in
      step_down (write_u64 m entry (bit_or (read_u64 m entry) pte_u)) t i ≡ some x
present-opened m t i x e =
    let v : ℕ = read_u64 m (table_entry t i) in
    let leads = through-some v x (sym (step_present-through m t i) ∙ e) in
    let high : bit_or v pte_u / 4096 ≡ v / 4096 = bit_or-high 12 v pte_u (omega arith) in
    step_down-write_self m t i (bit_or v pte_u) x (
      omega (arith, bit_or_low v pte_u, leads.0),
      omega (arith, user_bit_or v pte_u),
      omega (arith, leads.1),
    )

-- The walk goes where a present entry leads.
pub step_down-present :
    (m : Mem) (t i x : ℕ) → step_down m t i ≡ some x → step_present m t i ≡ some x
step_down-present m t i x e =
    let v : ℕ = read_u64 m (table_entry t i) in
    let leads : IsUserEntry v x = (step_down-LeadsTo m t i x).0 e in
    step_present-through m t i ∙ ground (arith, leads)
