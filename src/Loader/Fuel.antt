-- ===== src/Loader/Fuel.antt =====
-- The fuel of the loops over pages of kernel/src/user.rs.
use mantra_os.Common.{
  ℕ, Bool, zero, suc, ◌+◌, ◌-◌, ◌*◌, ◌/◌, ◌≤◌, ◌<◌, ◌≡◌, inl, inr, refl, sym, ◌∙◌, true, ltb,
  Bool-cases, arith,
}
use mantra_os.Common.Run.{done, Run-cases, checked_add}
use mantra_os.Common.Word.{u64_mod, saturating_add}
use mantra_os.Pmm.Align.{align_up, align_down, align_up_lem, align_down-page}
use mantra_os.Pmm.{alloc_frame}
use mantra_os.Tables.{Phys, Build, ◌>>=◌, lift, expect, map_4k}
use mantra_os.Elf.{Elf, Phdr}
use mantra_os.Loader.{map_pages, fill_segment, segment_flags, load_segment}

-- Chains whose rests agree on what the first part answers.
pub bind-cong :
    {A B : Type 0} (x : Build A) (next next' : A → Build B) (st : Phys)
    → ((a : A) (st1 : Phys) → x st ≡ done (a, st1) → next a st1 ≡ next' a st1)
    → (x >>= next) st ≡ (x >>= next') st
bind-cong x next next' st same = elim (Run-cases (x st)) [
  | inl failed ↦ rw (◌>>=◌, failed) refl
  | inr ((a, st1), made) ↦ rw (◌>>=◌, made) (same a st1 made)
]

-- What `v += PAGE_SIZE` gives.
pub next_page :
    (v v' : ℕ) (st st' : Phys) → lift (checked_add v 4096) st ≡ done (v', st') → v' ≡ v + 4096
next_page v v' st st' e = ground arith

-- One round of the loop, before the test of the next one.
abbrev round : ℕ → ℕ → ℕ → (ℕ → Build (Unit {0})) → Build (Unit {0})
round pml4 v flags rest =
    expect alloc_frame >>= λ p. map_4k pml4 v p flags >>= λ _. lift (checked_add v 4096) >>= rest

round-cong :
    (pml4 v flags : ℕ) (rest rest' : ℕ → Build (Unit {0})) (st : Phys)
    → ((st1 : Phys) → rest (v + 4096) st1 ≡ rest' (v + 4096) st1)
    → round pml4 v flags rest st ≡ round pml4 v flags rest' st
round-cong pml4 v flags rest rest' st same =
    let last = λ (st2 : Phys).
      bind-cong (lift (checked_add v 4096)) rest rest' st2
        (λ v' st3 e. rw (next_page v v' st2 st3 e) (same st3)) in
    bind-cong (expect alloc_frame) _ _ st
      (λ p st1 e. bind-cong (map_4k pml4 v p flags) _ _ st1 (λ u st2 e'. last st2))

map_pages-round :
    (fuel pml4 v seg_end flags : ℕ) (st : Phys)
    → ltb v seg_end ≡ true
    → map_pages (suc fuel) pml4 v seg_end flags st
      ≡ round pml4 v flags (λ v'. map_pages fuel pml4 v' seg_end flags) st
unfolding map_pages
map_pages-round fuel pml4 v seg_end flags st inside = rw (map_pages, inside) refl

map_pages-past :
    (fuel pml4 v seg_end flags : ℕ) (st : Phys)
    → seg_end ≤ v
    → map_pages fuel pml4 v seg_end flags st ≡ done (tt, st)
unfolding map_pages
map_pages-past zero pml4 v seg_end flags st past = refl
map_pages-past (suc fuel) pml4 v seg_end flags st past = ground arith

-- Two amounts of fuel that each cover the pages from `v` up to `seg_end` give the same run.
pub map_pages-fuel :
    (fuel fuel' pml4 v seg_end flags : ℕ) (st : Phys)
    → seg_end ≤ v + fuel * 4096
    → seg_end ≤ v + fuel' * 4096
    → map_pages fuel pml4 v seg_end flags st ≡ map_pages fuel' pml4 v seg_end flags st
map_pages-fuel zero fuel' pml4 v seg_end flags st h h' =
    map_pages-past zero pml4 v seg_end flags st (omega arith)
    ∙ sym (map_pages-past fuel' pml4 v seg_end flags st (omega arith))
map_pages-fuel (suc fuel) zero pml4 v seg_end flags st h h' =
    map_pages-past (suc fuel) pml4 v seg_end flags st (omega arith)
    ∙ sym (map_pages-past zero pml4 v seg_end flags st (omega arith))
map_pages-fuel (suc fuel) (suc fuel') pml4 v seg_end flags st h h' =
    elim (Bool-cases (ltb v seg_end)) [
      | inr past ↦
          map_pages-past (suc fuel) pml4 v seg_end flags st (ground arith)
          ∙ sym (map_pages-past (suc fuel') pml4 v seg_end flags st (ground arith))
      | inl inside ↦
          map_pages-round fuel pml4 v seg_end flags st inside
          ∙ round-cong pml4 v flags (λ v'. map_pages fuel pml4 v' seg_end flags)
              (λ v'. map_pages fuel' pml4 v' seg_end flags) st
              (λ st1.
                map_pages-fuel fuel fuel' pml4 (v + 4096) seg_end flags st1 (omega arith)
                  (omega arith))
          ∙ sym (map_pages-round fuel' pml4 v seg_end flags st inside)
    ]

-- The loop of `load_segment` with an amount of fuel, and then the fill.
abbrev pub segment_with : ℕ → ℕ → Elf → Phdr → ℕ → Build Bool
segment_with fuel pml4 elf ph seg_end =
    map_pages fuel pml4 (align_down ph.vaddr 4096) seg_end (segment_flags ph) >>= λ _.
    fill_segment pml4 elf ph

-- The fuel that `load_segment` gives its loop is enough: for a segment whose end rounds up without
-- overflow, `load_segment` is the run in which the loop has any larger amount, so the loop has ended
-- by its own test or panicked.
pub segment-fuel :
    (more pml4 seg_end : ℕ) (elf : Elf) (ph : Phdr) (st : Phys)
    → ph.vaddr < u64_mod
    → align_up (saturating_add ph.vaddr ph.memsz) 4096 ≡ done seg_end
    → load_segment pml4 elf ph st
      ≡ segment_with ((seg_end - align_down ph.vaddr 4096) / 4096 + more) pml4 elf ph seg_end st
unfolding load_segment
segment-fuel more pml4 seg_end elf ph st h e =
    let up = align_up_lem 12 52 (saturating_add ph.vaddr ph.memsz) seg_end (omega arith) e in
    let down : align_down ph.vaddr 4096 ≡ ph.vaddr / 4096 * 4096 = align_down-page ph.vaddr h in
    let seg_start : ℕ = align_down ph.vaddr 4096 in
    let fuel : ℕ = (seg_end - seg_start) / 4096 in
    let loops =
      map_pages-fuel fuel (fuel + more) pml4 seg_start seg_end (segment_flags ph) st (omega arith)
        (omega arith) in
    rw (◌>>=◌, e, loops) refl
