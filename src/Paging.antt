-- ===== src/Paging.antt =====
-- The kernel's own page tables: kernel/src/arch/x86_64/paging.rs, less the log of `init` and `invlpg`. Before
-- `init` the code reaches memory at its physical address, and through the direct map afterwards.
pub mod Same
mod Tests
use mantra_os.Common.{
  ℕ, zero, suc, ◌+◌, ◌*◌, ◌^◌, Bool, ◌==◌, if◌then◌else◌, Option, none, some, List, ◌++◌,
}
use mantra_os.Common.Bits.{bit_and, bit_or}
use mantra_os.Common.Word.{wrapping_add}
use mantra_os.Common.Run.{Run, done, panic}
use mantra_os.Pmm.{alloc_frame}
use mantra_os.Pmm.Align.{align_down}
use mantra_os.Memory.{read_u64, write_u64, pte_p, pte_rw, frame_mask, index_at}
use mantra_os.Common.Text.{codes}
use mantra_os.Serial.{write_hex_u64}
use mantra_os.Tables.{
  translate_4k, Phys, Build, ◌>>=◌, ◌>>◌, pure, lift, alloc_table, table_entry, write_entry, has,
  fill_chunks, pdpt_entries,
}

-- `PML4_PHYS` and `KMAP_NEXT`.
pub record Paging : Type 0 where
  pub pml4_phys : ℕ
  pub kmap_next : ℕ

abbrev pub kmap_base : ℕ
kmap_base = 0xffff_ff00_0000_0000

abbrev pub kmap_pml4_index : ℕ
kmap_pml4_index = 510

abbrev pub at_start : Paging
at_start = record { pml4_phys = 0; kmap_next = kmap_base }

-- `get_or_alloc_table`, which has no flags here.
pub enter_table : ℕ → Build ℕ
enter_table entry st =
    let v = read_u64 st.mem entry in
    if has pte_p v
    then pure (bit_and v frame_mask) st
    else (alloc_table >>= λ t. write_entry entry (bit_or t (bit_or pte_p pte_rw)) >> pure t) st

-- From the test of `pml4` on.
pub kmap_map_4k : ℕ → ℕ → ℕ → ℕ → Build (Unit {0})
unfolding enter_table
kmap_map_4k pml4 virt_in phys_in flags =
    let virt = align_down virt_in 4096 in
    let phys = align_down phys_in 4096 in
    if pml4 == 0 then pure tt else (do
      pdpt ← enter_table (table_entry pml4 kmap_pml4_index)
      pd ← enter_table (table_entry pdpt (index_at virt 30))
      pt ← enter_table (table_entry pd (index_at virt 21))
      write_entry (table_entry pt (index_at virt 12))
          (bit_or (bit_or phys (bit_or pte_p pte_rw)) flags))

pub kmap_alloc_4k : ℕ → Paging → Build (ℕ × Paging)
unfolding kmap_map_4k
kmap_alloc_4k phys paging = do
  let virt = paging.kmap_next
  kmap_map_4k paging.pml4_phys virt phys 0
  pure (virt, record paging { kmap_next = wrapping_add virt 4096 })

-- The tables of `init`: the same directory serves the identity map and the direct map.
pub init : ℕ → Paging → Build Paging
init max_phys_addr_inclusive paging = lift (pdpt_entries max_phys_addr_inclusive) >>= λ entries.
    if entries == 0 then pure paging else (do
      pml4 ← alloc_table
      pdpt ← alloc_table
      write_entry (table_entry pml4 0) (bit_or pdpt (bit_or pte_p pte_rw))
      write_entry (table_entry pml4 256) (bit_or pdpt (bit_or pte_p pte_rw))
      fill_chunks entries 0 pdpt
      pure (record paging { pml4_phys = pml4 }))

abbrev pub test_word : ℕ
test_word = 0x1122_3344_5566_7788

-- From the new page on: the write and the read through its address go where the tables lead. An
-- address that they do not map ends in the page-fault handler, which halts the machine as a panic
-- does.
pub readback : ℕ → ℕ → Build ℕ
readback pml4 v st = elim (translate_4k st.mem pml4 v) [
  | none ↦ panic
  | some p ↦ let m = write_u64 st.mem p test_word in done (read_u64 m p, record st { mem = m })
]

-- `kmap_smoke_test`, and what it sends to the serial port.
pub kmap_smoke_test : Paging → Build (Paging × List ℕ)
unfolding kmap_alloc_4k readback
kmap_smoke_test paging st =
    let (frame, pmm) = alloc_frame st.pmm in
    elim frame [
      | none ↦ done ((paging, codes "kmap: alloc_frame failed\n"), record st { pmm = pmm })
      | some p ↦
          (do
            (v, paging') ← kmap_alloc_4k p paging
            r ← readback paging'.pml4_phys v
            pure (
              paging',
              codes "kmap: mapped p="
                  ++ write_hex_u64 p
                  ++ codes " v="
                  ++ write_hex_u64 v
                  ++ codes "\n"
                  ++ codes "kmap: readback="
                  ++ write_hex_u64 r
                  ++ codes "\n",
            ))
            (record st { pmm = pmm })
    ]
