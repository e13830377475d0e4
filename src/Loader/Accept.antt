-- ===== src/Loader/Accept.antt =====
-- Which files `load_elf_into_user` of kernel/src/user.rs accepts.
use mantra_os.Common.{
  ℕ, zero, suc, ◌+◌, ◌-◌, ◌*◌, ◌/◌, ◌≤◌, ◌<◌, ◌≡◌, ◌≢◌, inl, inr, refl, sym, subst, ◌∙◌, Bool, true,
  false, not, ◌||◌, ◌==◌, if◌then◌else◌, Bool-cases, none, some, length, arith,
}
use native.Mathlib.Decide.{ℕ_discrete}
use mantra_os.Common.Run.{done}
use mantra_os.Common.Word.{u64_max, saturating_add}
use mantra_os.Pmm.Align.{align_up, align_down}
use mantra_os.Elf.{Elf, field, Phdr, phdr_size, program_header, header, refused, beyond}
use mantra_os.Elf.Valid.{IsElf, beyond-no, refused-IsElf, header_fields}
use mantra_os.Tables.{Phys, Build, ◌>>=◌, ◌>>◌, pure, lift}
use mantra_os.Tables.Route.{bind-done}
use mantra_os.Loader.{
  pt_load, segment_flags, map_pages, copy_segment, fill_segment, load_segment, load_segments,
  load_elf_into_user,
}

-- The bytes of a segment that is loaded lie within the file.
abbrev pub IsWithin : Elf → Phdr → Type 0
IsWithin elf ph =
    ph.type ≡ pt_load → ph.memsz ≢ 0 → ph.filesz ≢ 0 → ph.offset + ph.filesz ≤ length elf

fill_segment-IsWithin :
    (pml4 : ℕ) (elf : Elf) (ph : Phdr) (st st' : Phys)
    → length elf < u64_max
    → fill_segment pml4 elf ph st ≡ done (true, st')
    → IsWithin elf ph
unfolding fill_segment copy_segment
fill_segment-IsWithin pml4 elf ph st st' h e is_load some_memory some_bytes =
    elim (Bool-cases (beyond ph.offset ph.filesz (length elf))) [
      | inl past ↦ absurd (ground arith)
      | inr fits ↦ beyond-no ph.offset ph.filesz (length elf) h fits
    ]

load_segment-IsWithin :
    (pml4 : ℕ) (elf : Elf) (ph : Phdr) (st st' : Phys)
    → length elf < u64_max
    → load_segment pml4 elf ph st ≡ done (true, st')
    → IsWithin elf ph
unfolding load_segment
load_segment-IsWithin pml4 elf ph st st' h e =
    let start : ℕ = align_down ph.vaddr 4096 in
    let pages : ℕ → Build (Unit {0}) =
      λ seg_end. map_pages ((seg_end - start) / 4096) pml4 start seg_end (segment_flags ph) in
    let (seg_end, (s1, e1, r1)) =
      bind-done (lift (align_up (saturating_add ph.vaddr ph.memsz) 4096))
        (λ seg_end. pages seg_end >> fill_segment pml4 elf ph) st st' true e in
    let (u, (s2, e2, r2)) =
      bind-done (pages seg_end) (λ u. fill_segment pml4 elf ph) s1 st' true r1 in
    fill_segment-IsWithin pml4 elf ph s2 st' h r2

load_segments-IsWithin :
    (n i phoff pml4 : ℕ) (elf : Elf) (st st' : Phys)
    → length elf < u64_max
    → load_segments n i phoff pml4 elf st ≡ done (true, st')
    → (k : ℕ) → i ≤ k
    → k < i + n
    → IsWithin elf (program_header elf (phoff + k * phdr_size))
unfolding load_segments
load_segments-IsWithin zero i phoff pml4 elf st st' h e k le lt = absurd (omega arith)
load_segments-IsWithin (suc n) i phoff pml4 elf st st' h e k le lt =
    let ph : Phdr = program_header elf (phoff + i * phdr_size) in
    elim (Bool-cases (not (ph.type == pt_load) || ph.memsz == 0)) [
      | inl skipped ↦ elim (ℕ_discrete k i) [
        | yes here ↦ rw here (λ is_load some_memory some_bytes. absurd (ground arith))
        | no later ↦
            load_segments-IsWithin n (i + 1) phoff pml4 elf st st' h (ground arith) k (omega arith)
              (omega arith)
      ]
      | inr loads ↦
          let next : Build Bool = load_segments n (i + 1) phoff pml4 elf in
          let both : (load_segment pml4 elf ph >>= λ ok. if ok then next else pure false) st
              ≡ done (true, st') =
            sym (rw (load_segments, loads) refl) ∙ e in
          let (ok, (s1, e1, r1)) =
            bind-done (load_segment pml4 elf ph) (λ ok. if ok then next else pure false) st st' true
              both in
          let good : ok ≡ true = ground arith in
          let loaded : load_segment pml4 elf ph st ≡ done (true, s1) =
            subst (λ b. load_segment pml4 elf ph st ≡ done (b, s1)) good e1 in
          elim (ℕ_discrete k i) [
            | yes here ↦ rw here (load_segment-IsWithin pml4 elf ph st s1 h loaded)
            | no later ↦
                load_segments-IsWithin n (i + 1) phoff pml4 elf s1 st' h (ground arith) k
                  (omega arith) (omega arith)
          ]
    ]

-- For a file whose length a `usize` can count past: when `load_elf_into_user` answers an entry point,
-- the file is an ELF file of 64 bits, little-endian, for x86-64, with its program headers inside the
-- file; the answer is the entry point in its header; and of every segment to load, the bytes that the
-- file has for it lie inside the file.
pub load_elf-IsElf :
    (pml4 entry : ℕ) (elf : Elf) (st st' : Phys)
    → length elf < u64_max
    → load_elf_into_user pml4 elf st ≡ done (some entry, st')
    → IsElf elf
      × (entry ≡ field elf 24 8)
      × ((k : ℕ)
          → k < field elf 56 2
          → IsWithin elf (program_header elf (field elf 32 8 + k * phdr_size)))
unfolding load_elf_into_user
load_elf-IsElf pml4 entry elf st st' h e = elim (Bool-cases (refused elf)) [
  | inl bad ↦ absurd (ground arith)
  | inr fine ↦
      let eh = header elf in
      let load : Build Bool = load_segments eh.phnum 0 eh.phoff pml4 elf in
      let ran : (load >>= λ ok. pure (if ok then some eh.entry else none)) st
          ≡ done (some entry, st') =
        sym (rw (load_elf_into_user, fine) refl) ∙ e in
      let (ok, (s1, e1, r1)) =
        bind-done load (λ ok. pure (if ok then some eh.entry else none)) st st' (some entry) ran in
      let good : ok ≡ true = ground arith in
      let loaded : load st ≡ done (true, s1) = subst (λ b. load st ≡ done (b, s1)) good e1 in
      let fields = header_fields elf in
      (
        refused-IsElf elf h fine,
        ground (arith, fields.0),
        λ k lt.
            subst (λ off. IsWithin elf (program_header elf (off + k * phdr_size))) fields.1
              (load_segments-IsWithin eh.phnum 0 eh.phoff pml4 elf st s1 h loaded k (omega arith)
                (omega (arith, fields.2))),
      )
]
