-- ===== src/Memory.antt =====
-- Physical memory by bytes, and the walk of the page tables that kernel/src/arch/x86_64/isr.rs makes
-- before it touches user memory. The kernel reaches physical memory through the direct map
-- (`paging::phys_to_virt_ptr`), so an access through such a pointer is one of the physical byte.
pub mod Walk
pub mod Words
pub mod Sample
mod Tests
use mantra_os.Common.{
  ℕ, zero, suc, ◌+◌, ◌-◌, ◌*◌, ◌/◌, ◌%◌, ◌^◌, Bool, true, false, not, ◌&&◌, ltb, leb, ◌==◌,
  if◌then◌else◌, List, [], ◌∷◌, Option, none, some,
}
use mantra_os.Common.Bits.{bit_and, bit_or}
use mantra_os.Common.Word.{wrapping_add}

abbrev pub Mem : Type 0
Mem = ℕ → ℕ

abbrev pub write_byte : Mem → ℕ → ℕ → Mem
write_byte m p b q = if q == p then b else m q

-- A little-endian u64.
unfoldable pub read_u64 : Mem → ℕ → ℕ
read_u64 m p =
    m p
    + 2 ^ 8 * m (p + 1)
    + 2 ^ 16 * m (p + 2)
    + 2 ^ 24 * m (p + 3)
    + 2 ^ 32 * m (p + 4)
    + 2 ^ 40 * m (p + 5)
    + 2 ^ 48 * m (p + 6)
    + 2 ^ 56 * m (p + 7)

-- The write of a u64 at `p`, little-endian.
unfoldable pub write_u64 : Mem → ℕ → ℕ → Mem
write_u64 m p v q = if leb p q && ltb q (p + 8) then v / 2 ^ (8 * (q - p)) % 256 else m q

abbrev pub pte_p : ℕ
pte_p = 2 ^ 0

abbrev pub pte_rw : ℕ
pte_rw = 2 ^ 1

abbrev pub pte_u : ℕ
pte_u = 2 ^ 2

-- `MASK`, the frame address of an entry.
abbrev pub frame_mask : ℕ
frame_mask = 0x000f_ffff_ffff_f000

-- `rd`: entry `idx` of the table at `table`.
abbrev pub rd : Mem → ℕ → ℕ → ℕ
rd m table idx = read_u64 m (table + 8 * idx)

-- `(virt >> shift) & 0x1ff`.
unfoldable pub index_at : ℕ → ℕ → ℕ
index_at virt shift = bit_and (virt / 2 ^ shift) 0x1ff

-- Both bits P and U of an entry.
pub is_user : ℕ → Bool
is_user entry = bit_and entry (bit_or pte_p pte_u) == bit_or pte_p pte_u

-- One level: the frame that the entry names, if it is present and open to user mode.
pub step_down : Mem → ℕ → ℕ → Option ℕ
step_down m table idx =
    if not (is_user (rd m table idx)) then none else some (bit_and (rd m table idx) frame_mask)

infixl 5 ◌>>=◌
abbrev ◌>>=◌ : {A B : Type 0} → Option A → (A → Option B) → Option B
none >>= f = none
some a >>= f = f a

-- The body that `virt_to_phys_in` and `user_virt_to_phys` share, from the root table on.
unfoldable pub walk : Mem → ℕ → ℕ → Option ℕ
walk m pml4 virt = do
  pdpt ← step_down m pml4 (index_at virt 39)
  pd ← step_down m pdpt (index_at virt 30)
  pt ← step_down m pd (index_at virt 21)
  frame ← step_down m pt (index_at virt 12)
  some (frame + bit_and virt 0xfff)

unfoldable pub virt_to_phys_in : Mem → ℕ → ℕ → Option ℕ
unfolding walk
virt_to_phys_in m pml4_phys virt = walk m (bit_and pml4_phys frame_mask) virt

-- `user_virt_to_phys`: the same text, where the root is what CR3 holds (`current_user_pml4`).
abbrev pub user_virt_to_phys : Mem → ℕ → ℕ → Option ℕ
user_virt_to_phys m cr3 virt = virt_to_phys_in m cr3 virt

-- `user_copy_in` of `n` bytes from `user_ptr + i`, under the root `cr3`.
pub copy_in : Mem → ℕ → ℕ → ℕ → ℕ → Option (List ℕ)
copy_in m cr3 user_ptr i zero = some []
copy_in m cr3 user_ptr i (suc n) = elim (user_virt_to_phys m cr3 (wrapping_add user_ptr i)) [
  | none ↦ none
  | some p ↦ elim (copy_in m cr3 user_ptr (i + 1) n) [
    | none ↦ none
    | some bytes ↦ some (m p ∷ bytes)
  ]
]

-- `user_copy_out_in` from byte `i` on: whether all was written, and the memory, in which a copy that
-- fails half way leaves what it has written.
pub copy_out : Mem → ℕ → ℕ → ℕ → List ℕ → Bool × Mem
copy_out m cr3 user_ptr i [] = (true, m)
copy_out m cr3 user_ptr i (b ∷ bytes) = elim (virt_to_phys_in m cr3 (wrapping_add user_ptr i)) [
  | none ↦ (false, m)
  | some p ↦ copy_out (write_byte m p b) cr3 user_ptr (i + 1) bytes
]

-- `user_copy_out`: the same text, where the root is what CR3 holds.
abbrev pub user_copy_out : Mem → ℕ → ℕ → List ℕ → Bool × Mem
user_copy_out m cr3 user_ptr src = copy_out m cr3 user_ptr 0 src

-- The loop of the WRITE call over the `n` bytes from `user_ptr + i`: the bytes written to the port.
pub read_until_unmapped : Mem → ℕ → ℕ → ℕ → ℕ → List ℕ
read_until_unmapped m cr3 user_ptr i zero = []
read_until_unmapped m cr3 user_ptr i (suc n) =
    elim (user_virt_to_phys m cr3 (wrapping_add user_ptr i)) [
      | none ↦ []
      | some p ↦ m p ∷ read_until_unmapped m cr3 user_ptr (i + 1) n
    ]
