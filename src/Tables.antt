-- ===== src/Tables.antt =====
-- The page tables of a process, as kernel/src/user.rs builds and reads them. A table is named by its
-- physical address, and an access through the direct map is one of physical memory.
pub mod Entries
pub mod Tree
pub mod Grow
pub mod Space
pub mod Enter
pub mod Translate
pub mod User
pub mod Reach
pub mod Route
pub mod Map
pub mod Walks
pub mod Guard
pub mod Root
mod Tests
use mantra_os.Common.{
  ℕ, zero, suc, ◌+◌, ◌-◌, ◌*◌, ◌/◌, ◌^◌, min, Bool, not, ◌&&◌, ltb, leb, ◌==◌, if◌then◌else◌,
  Option, none, some,
}
use mantra_os.Common.Bits.{bit_and, bit_or}
use mantra_os.Common.Word.{saturating_add}
use mantra_os.Common.Run.{Run, done, panic, checked_add}
use mantra_os.Pmm.{Pmm, alloc_pages, alloc_frame}
use mantra_os.Pmm.Align.{align_up, align_down}
use mantra_os.Memory.{Mem, read_u64, write_u64, pte_p, pte_rw, pte_u, frame_mask, index_at}

-- The physical memory and the manager of its pages.
pub record Phys : Type 0 where
  pub pmm : Option Pmm
  pub mem : Mem

-- Code that works on both, and may panic.
abbrev pub Build : Type 0 → Type 0
Build A = Phys → Run (A × Phys)

infixl 5 ◌>>=◌ ◌>>◌
abbrev pub ◌>>=◌ : {A B : Type 0} → Build A → (A → Build B) → Build B
◌>>=◌ build next st = elim (build st) [ panic ↦ panic | done (a, st') ↦ next a st' ]

abbrev pub ◌>>◌ : {A B : Type 0} → Build A → Build B → Build B
first >> next = first >>= λ _. next

abbrev pub pure : {A : Type 0} → A → Build A
pure a st = done (a, st)

-- A computation on numbers only.
abbrev pub lift : {A : Type 0} → Run A → Build A
lift panic st = panic
lift (done a) st = done (a, st)

-- `expect` on what the manager answers.
abbrev pub expect : (Option Pmm → Option ℕ × Option Pmm) → Build ℕ
expect alloc st =
    let (p, pmm) = alloc st.pmm in
    elim p [ none ↦ panic | some a ↦ done (a, record st { pmm = pmm }) ]

abbrev pub zeroed : Mem → ℕ → Mem
zeroed m p q = if leb p q && ltb q (p + 4096) then 0 else m q

pub zero_page : ℕ → Build (Unit {0})
zero_page p st = done (tt, record st { mem = zeroed st.mem p })

unfoldable pub alloc_table : Build ℕ
unfolding zero_page
alloc_table = do p ← expect (alloc_pages 1); zero_page p; pure p

-- `table_entry_mut`: the address of entry `idx` of a table.
abbrev pub table_entry : ℕ → ℕ → ℕ
table_entry table idx = table + 8 * idx

abbrev pub write_entry : ℕ → ℕ → Build (Unit {0})
write_entry entry v st = done (tt, record st { mem = write_u64 st.mem entry v })

-- A bit of a word, as `(v & bit) != 0`.
abbrev pub has : ℕ → ℕ → Bool
has bit v = not (bit_and v bit == 0)

-- The entry of a new table.
abbrev pub new_entry : ℕ → ℕ → ℕ
new_entry t flags =
    let e = bit_or t (bit_or pte_p pte_rw) in if has pte_u flags then bit_or e pte_u else e

unfoldable pub get_or_alloc_table : ℕ → ℕ → Build ℕ
unfolding alloc_table
get_or_alloc_table entry flags st =
    let v = read_u64 st.mem entry in
    if has pte_p v
    then (if has pte_u flags && not (has pte_u v)
        then (write_entry entry (bit_or v pte_u) >> pure (bit_and (bit_or v pte_u) frame_mask)) st
        else pure (bit_and v frame_mask) st)
    else (alloc_table >>= λ t. write_entry entry (new_entry t flags) >> pure t) st

-- `map_4k`, but for the `invlpg`.
unfoldable pub map_4k : ℕ → ℕ → ℕ → ℕ → Build (Unit {0})
unfolding get_or_alloc_table
map_4k pml4 virt_in phys_in flags = do
  let virt = align_down virt_in 4096
  let phys = align_down phys_in 4096
  pdpt ← get_or_alloc_table (table_entry pml4 (index_at virt 39)) flags
  pd ← get_or_alloc_table (table_entry pdpt (index_at virt 30)) flags
  pt ← get_or_alloc_table (table_entry pd (index_at virt 21)) flags
  write_entry (table_entry pt (index_at virt 12)) (bit_or phys (bit_or pte_p flags))

-- One level of `translate_4k`: the frame that a present entry names.
pub step_present : Mem → ℕ → ℕ → Option ℕ
step_present m table idx =
    let e = read_u64 m (table_entry table idx) in
    if bit_and e pte_p == 0 then none else some (bit_and e frame_mask)

unfoldable pub translate_4k : Mem → ℕ → ℕ → Option ℕ
unfolding step_present
translate_4k m pml4 virt = elim (step_present m pml4 (index_at virt 39)) [
  | none ↦ none
  | some pdpt ↦ elim (step_present m pdpt (index_at virt 30)) [
    | none ↦ none
    | some pd ↦ elim (step_present m pd (index_at virt 21)) [
      | none ↦ none
      | some pt ↦ elim (step_present m pt (index_at virt 12)) [
        | none ↦ none
        | some frame ↦ some (frame + bit_and virt 0xfff)
      ]
    ]
  ]
]

abbrev pub gib : ℕ
gib = 1024 * 1024 * 1024

abbrev pub huge_2m : ℕ
huge_2m = 2 * 1024 * 1024

abbrev pub pte_ps : ℕ
pte_ps = 2 ^ 7

-- The loop of `map_hhdm_huge` over the entries of `pd`, with `n` entries left from `j` on.
pub fill_huge : ℕ → ℕ → ℕ → ℕ → Build (Unit {0})
fill_huge zero j pd chunk_base = pure tt
fill_huge (suc n) j pd chunk_base = do
  write_entry (table_entry pd j)
      (bit_or (chunk_base + j * huge_2m) (bit_or pte_p (bit_or pte_rw pte_ps)))
  fill_huge n (j + 1) pd chunk_base

-- The loop over the entries of `pdpt`.
pub fill_chunks : ℕ → ℕ → ℕ → Build (Unit {0})
unfolding alloc_table fill_huge
fill_chunks zero i pdpt = pure tt
fill_chunks (suc n) i pdpt = do
  pd ← alloc_table
  write_entry (table_entry pdpt i) (bit_or pd (bit_or pte_p pte_rw))
  fill_huge 512 0 pd (i * gib)
  fill_chunks n (i + 1) pdpt

-- The number of entries, each for one GiB, that reach the last address of memory.
pub pdpt_entries : ℕ → Run ℕ
pdpt_entries max_phys_inclusive = elim (align_up (saturating_add max_phys_inclusive 1) gib) [
  | panic ↦ panic
  | done max_end ↦ elim (checked_add max_end (gib - 1)) [
    | panic ↦ panic
    | done n ↦ done (min (n / gib) 512)
  ]
]

pub map_hhdm_huge : ℕ → ℕ → Build (Unit {0})
unfolding alloc_table fill_chunks
map_hhdm_huge pml4 max_phys_inclusive = do
  entries ← lift (pdpt_entries max_phys_inclusive)
  pdpt ← alloc_table
  write_entry (table_entry pml4 256) (bit_or pdpt (bit_or pte_p pte_rw))
  fill_chunks entries 0 pdpt
