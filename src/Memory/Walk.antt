-- ===== src/Memory/Walk.antt =====
-- What the page walk of kernel/src/arch/x86_64/isr.rs lets through.
use mantra_os.Common.{
  ℕ, ◌+◌, ◌-◌, ◌*◌, ◌/◌, ◌%◌, ◌^◌, ◌≡◌, ◌↔◌, refl, ap, ◌∙◌, inl, inr, true, Option, none, some,
  Bool-cases, arith,
}
use mantra_os.Common.Bits.{bit_and, bit_and-ones, bit_and-shifted, bit_and_five}
use mantra_os.Memory.{Mem, rd, index_at, is_user, step_down, walk, frame_mask, ◌>>=◌}

-- The entry is present (bit 0) and open to user mode (bit 2), and names the frame at `next`.
abbrev pub IsUserEntry : ℕ → ℕ → Type 0
IsUserEntry entry next =
    (entry % 2 ≡ 1) × (entry / 4 % 2 ≡ 1) × (next ≡ entry / 4096 % 2 ^ 40 * 4096)

-- Entry `idx` of the table at `table` is such an entry.
abbrev pub LeadsTo : Mem → ℕ → ℕ → ℕ → Type 0
LeadsTo m table idx next = IsUserEntry (rd m table idx) next

-- A user mapping of the page of `virt` onto the frame at `frame`, under the root table `pml4`.
pub record UserMapping (m : Mem) (pml4 virt frame : ℕ) : Type 0 where
  pub pdpt : ℕ
  pub pd : ℕ
  pub pt : ℕ
  pub level4 : LeadsTo m pml4 (virt / 2 ^ 39 % 512) pdpt
  pub level3 : LeadsTo m pdpt (virt / 2 ^ 30 % 512) pd
  pub level2 : LeadsTo m pd (virt / 2 ^ 21 % 512) pt
  pub level1 : LeadsTo m pt (virt / 2 ^ 12 % 512) frame

pub frame_of_entry : (e : ℕ) → bit_and e frame_mask ≡ e / 4096 % 2 ^ 40 * 4096
frame_of_entry e =
    bit_and-shifted 12 e (2 ^ 40 - 1)
    ∙ ap (λ t. t * 4096) (bit_and-ones 40 (e / 4096) (2 ^ 40 - 1) (omega arith))

pub index_at_lem : (virt shift : ℕ) → index_at virt shift ≡ virt / 2 ^ shift % 512
unfolding index_at
index_at_lem virt shift = bit_and-ones 9 (virt / 2 ^ shift) 0x1ff (omega arith)

is_user_lem : (e : ℕ) → is_user e ≡ true → (e % 2 ≡ 1) × (e / 4 % 2 ≡ 1)
unfolding is_user
is_user_lem e h = ground (arith, bit_and_five e)

is_user_back : (e : ℕ) → e % 2 ≡ 1 → e / 4 % 2 ≡ 1 → is_user e ≡ true
unfolding is_user
is_user_back e p q = ground (arith, bit_and_five e)

pub step_down-LeadsTo :
    (m : Mem) (table idx next : ℕ) → (step_down m table idx ≡ some next) ↔ LeadsTo m table idx next
unfolding step_down
step_down-LeadsTo m table idx next =
    let entry : ℕ = rd m table idx in
    (
      λ e. elim (Bool-cases (is_user entry)) [
        | inl user ↦ ground (arith, is_user_lem entry, frame_of_entry entry)
        | inr system ↦ absurd (ground arith)
      ],
      λ h. ground (arith, is_user_back entry h.0 h.1, frame_of_entry entry),
    )

step_at-LeadsTo :
    (m : Mem) (table virt shift next : ℕ)
    → (step_down m table (index_at virt shift) ≡ some next)
      ↔ LeadsTo m table (virt / 2 ^ shift % 512) next
step_at-LeadsTo m table virt shift next =
    rw (index_at_lem virt shift) (step_down-LeadsTo m table (virt / 2 ^ shift % 512) next)

>>=-eq-some :
    (o : Option ℕ) (f : ℕ → Option ℕ) {b : ℕ}
    → (o >>= f) ≡ some b
    → (a : ℕ) × (o ≡ some a) × (f a ≡ some b)
>>=-eq-some none f e = cc
>>=-eq-some (some a) f e = (a, refl, e)

-- The walk gives an address exactly where an entry that is present and open to user mode stands at
-- each of the four levels, and then the address is that of the last entry's frame plus the offset
-- in the page. So an entry that is not present or is the kernel's, at any level, stops it.
pub walk-UserMapping :
    (m : Mem) (pml4 virt phys : ℕ)
    → (walk m pml4 virt ≡ some phys)
      ↔ ((frame : ℕ) × UserMapping m pml4 virt frame × (phys ≡ frame + virt % 4096))
unfolding walk
walk-UserMapping m pml4 virt phys = (
  λ e.
      let (pdpt, e4, r4) = >>=-eq-some (step_down m pml4 (index_at virt 39)) _ e in
      let (pd, e3, r3) = >>=-eq-some (step_down m pdpt (index_at virt 30)) _ r4 in
      let (pt, e2, r2) = >>=-eq-some (step_down m pd (index_at virt 21)) _ r3 in
      let (frame, e1, r1) = >>=-eq-some (step_down m pt (index_at virt 12)) _ r2 in
      (
        frame,
        record {
          pdpt = pdpt;
          pd = pd;
          pt = pt;
          level4 = (step_at-LeadsTo m pml4 virt 39 pdpt).0 e4;
          level3 = (step_at-LeadsTo m pdpt virt 30 pd).0 e3;
          level2 = (step_at-LeadsTo m pd virt 21 pt).0 e2;
          level1 = (step_at-LeadsTo m pt virt 12 frame).0 e1;
        },
        ground (arith, bit_and-ones 12 virt 0xfff),
      ),
  λ w.
      let u = w.1 in
      let e4 = (step_at-LeadsTo m pml4 virt 39 u.pdpt).1 u.level4 in
      let e3 = (step_at-LeadsTo m u.pdpt virt 30 u.pd).1 u.level3 in
      let e2 = (step_at-LeadsTo m u.pd virt 21 u.pt).1 u.level2 in
      let e1 = (step_at-LeadsTo m u.pt virt 12 w.0).1 u.level1 in
      rw (e4, e3, e2, e1) (ap some (omega (arith, bit_and-ones 12 virt 0xfff, w.2))),
)
