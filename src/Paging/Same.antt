-- ===== src/Paging/Same.antt =====
-- The mapping of a page in kernel/src/arch/x86_64/paging.rs and in kernel/src/user.rs.
use mantra_os.Common.{
  ℕ, ◌+◌, ◌*◌, ◌/◌, ◌^◌, ◌≤◌, ◌<◌, ◌≡◌, ◌≢◌, refl, sym, ap, fun_ext, ◌∙◌, false, ◌==◌, arith,
}
use mantra_os.Common.Bits.{bit_or}
use mantra_os.Common.Flags.{bit_or_assoc}
use mantra_os.Pmm.Align.{align_down, align_down-page}
use mantra_os.Memory.{pte_p, pte_rw, pte_u, index_at}
use mantra_os.Memory.Walk.{index_at_lem}
use mantra_os.Tables.{Phys, Build, ◌>>=◌, table_entry, write_entry, has, get_or_alloc_table, map_4k}
use mantra_os.Paging.{kmap_base, kmap_pml4_index, enter_table, kmap_map_4k}

enter_table-eq-get_or_alloc_table :
    (entry flags : ℕ) (st : Phys)
    → has pte_u flags ≡ false
    → enter_table entry st ≡ get_or_alloc_table entry flags st
unfolding enter_table get_or_alloc_table
enter_table-eq-get_or_alloc_table entry flags st kernel = ground arith

-- The page's entry, as each writes it.
page_entry_same :
    (phys flags : ℕ)
    → bit_or (bit_or phys (bit_or pte_p pte_rw)) flags
      ≡ bit_or phys (bit_or pte_p (bit_or pte_rw flags))
page_entry_same phys flags =
    bit_or_assoc phys (bit_or pte_p pte_rw) flags
    ∙ ap (bit_or phys) (bit_or_assoc pte_p pte_rw flags)

-- The region of the kernel's mappings lies under one entry of the root.
kmap_index :
    (virt : ℕ)
    → kmap_base ≤ virt
    → virt < kmap_base + 2 ^ 39
    → index_at (align_down virt 4096) 39 ≡ kmap_pml4_index
kmap_index virt low high =
    let page : align_down virt 4096 ≡ virt / 4096 * 4096 = align_down-page virt (omega arith) in
    index_at_lem (align_down virt 4096) 39 ∙ omega (arith, page)

-- Three tables entered by `enter`, from entry `top` of the root, and the write of the page's entry.
abbrev chain : (ℕ → Build ℕ) → ℕ → ℕ → ℕ → ℕ → Build (Unit {0})
chain enter pml4 top page value = do
  pdpt ← enter (table_entry pml4 top)
  pd ← enter (table_entry pdpt (index_at page 30))
  pt ← enter (table_entry pd (index_at page 21))
  write_entry (table_entry pt (index_at page 12)) value

kmap_map_4k-chain :
    (pml4 virt phys flags : ℕ) (st : Phys)
    → (pml4 == 0) ≡ false
    → kmap_map_4k pml4 virt phys flags st
      ≡ chain enter_table pml4 kmap_pml4_index
          (align_down virt 4096)
          (bit_or (bit_or (align_down phys 4096) (bit_or pte_p pte_rw)) flags)
          st
unfolding kmap_map_4k
kmap_map_4k-chain pml4 virt phys flags st started = rw (kmap_map_4k, started) refl

map_4k-chain :
    (pml4 virt phys flags : ℕ) (st : Phys)
    → map_4k pml4 virt phys flags st
      ≡ chain
          (λ entry. get_or_alloc_table entry flags)
          pml4
          (index_at (align_down virt 4096) 39)
          (align_down virt 4096)
          (bit_or (align_down phys 4096) (bit_or pte_p flags))
          st
unfolding map_4k
map_4k-chain pml4 virt phys flags st = refl

-- After `init`, for an address in the region of the kernel's mappings and flags without the user bit,
-- the kernel's own mapping of a page is the one that a process's address space would get under the
-- same root with the flags and the bit for writing.
pub kmap_map_4k-eq-map_4k :
    (pml4 virt phys flags : ℕ) (st : Phys)
    → pml4 ≢ 0
    → kmap_base ≤ virt
    → virt < kmap_base + 2 ^ 39
    → has pte_u (bit_or pte_rw flags) ≡ false
    → kmap_map_4k pml4 virt phys flags st ≡ map_4k pml4 virt phys (bit_or pte_rw flags) st
kmap_map_4k-eq-map_4k pml4 virt phys flags st set low high kernel =
    let page : ℕ = align_down virt 4096 in
    let frame : ℕ = align_down phys 4096 in
    let f : ℕ = bit_or pte_rw flags in
    let top : index_at page 39 ≡ kmap_pml4_index = kmap_index virt low high in
    let enter : enter_table ≡ (λ entry. get_or_alloc_table entry f) =
      fun_ext (λ entry. fun_ext (λ st1. enter_table-eq-get_or_alloc_table entry f st1 kernel)) in
    kmap_map_4k-chain pml4 virt phys flags st (ground arith)
    ∙ ap (λ e. chain enter_table pml4 kmap_pml4_index page e st) (page_entry_same frame flags)
    ∙ ap (λ g. chain g pml4 kmap_pml4_index page (bit_or frame (bit_or pte_p f)) st) enter
    ∙ ap
        (λ i.
          chain (λ entry. get_or_alloc_table entry f) pml4 i page (bit_or frame (bit_or pte_p f))
            st)
        (sym top)
    ∙ sym (map_4k-chain pml4 virt phys f st)
