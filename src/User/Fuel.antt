-- ===== src/User/Fuel.antt =====
-- The fuel of the loop of kernel/src/user.rs that maps the kernel.
use mantra_os.Common.{
  ℕ, zero, suc, ◌+◌, ◌-◌, ◌*◌, ◌/◌, ◌≤◌, ◌<◌, ◌≡◌, inl, inr, refl, sym, ◌∙◌, true, ltb, Bool-cases,
  arith,
}
use mantra_os.Common.Run.{done, checked_add}
use mantra_os.Common.Word.{u64_mod}
use mantra_os.Pmm.Align.{align_up, align_down, align_up_lem, align_down-page}
use mantra_os.Memory.{pte_rw}
use mantra_os.Tables.{Phys, Build, ◌>>=◌, lift, map_4k}
use mantra_os.Loader.Fuel.{bind-cong, next_page}
use mantra_os.User.{map_kernel}

-- One round of the loop, before the test of the next one.
abbrev round : ℕ → ℕ → (ℕ → Build (Unit {0})) → Build (Unit {0})
round pml4 p rest = map_4k pml4 p p pte_rw >>= λ _. lift (checked_add p 4096) >>= rest

round-cong :
    (pml4 p : ℕ) (rest rest' : ℕ → Build (Unit {0})) (st : Phys)
    → ((st1 : Phys) → rest (p + 4096) st1 ≡ rest' (p + 4096) st1)
    → round pml4 p rest st ≡ round pml4 p rest' st
round-cong pml4 p rest rest' st same = bind-cong (map_4k pml4 p p pte_rw) _ _ st (λ u st1 e.
    bind-cong (lift (checked_add p 4096)) rest rest' st1
      (λ p' st2 e'. rw (next_page p p' st1 st2 e') (same st2)))

map_kernel-round :
    (fuel pml4 p ke : ℕ) (st : Phys)
    → ltb p ke ≡ true
    → map_kernel (suc fuel) pml4 p ke st ≡ round pml4 p (λ p'. map_kernel fuel pml4 p' ke) st
unfolding map_kernel
map_kernel-round fuel pml4 p ke st inside = rw (map_kernel, inside) refl

map_kernel-past :
    (fuel pml4 p ke : ℕ) (st : Phys) → ke ≤ p → map_kernel fuel pml4 p ke st ≡ done (tt, st)
unfolding map_kernel
map_kernel-past zero pml4 p ke st past = refl
map_kernel-past (suc fuel) pml4 p ke st past = ground arith

map_kernel-enough :
    (fuel fuel' pml4 p ke : ℕ) (st : Phys)
    → ke ≤ p + fuel * 4096
    → ke ≤ p + fuel' * 4096
    → map_kernel fuel pml4 p ke st ≡ map_kernel fuel' pml4 p ke st
map_kernel-enough zero fuel' pml4 p ke st h h' =
    map_kernel-past zero pml4 p ke st (omega arith)
    ∙ sym (map_kernel-past fuel' pml4 p ke st (omega arith))
map_kernel-enough (suc fuel) zero pml4 p ke st h h' =
    map_kernel-past (suc fuel) pml4 p ke st (omega arith)
    ∙ sym (map_kernel-past zero pml4 p ke st (omega arith))
map_kernel-enough (suc fuel) (suc fuel') pml4 p ke st h h' = elim (Bool-cases (ltb p ke)) [
  | inr past ↦
      map_kernel-past (suc fuel) pml4 p ke st (ground arith)
      ∙ sym (map_kernel-past (suc fuel') pml4 p ke st (ground arith))
  | inl inside ↦
      map_kernel-round fuel pml4 p ke st inside
      ∙ round-cong pml4 p (λ p'. map_kernel fuel pml4 p' ke) (λ p'. map_kernel fuel' pml4 p' ke) st
          (λ st1. map_kernel-enough fuel fuel' pml4 (p + 4096) ke st1 (omega arith) (omega arith))
      ∙ sym (map_kernel-round fuel' pml4 p ke st inside)
]

-- The fuel that `address_space` gives the loop over the kernel's pages is enough: where the end of
-- the kernel rounds up without overflow, any larger amount gives the same run, so the loop has ended
-- by its own test or panicked.
pub map_kernel-fuel :
    (more pml4 kernel_base kernel_end ke : ℕ) (st : Phys)
    → kernel_base < u64_mod
    → align_up kernel_end 4096 ≡ done ke
    → let kb = align_down kernel_base 4096 in
      let fuel = (ke - kb) / 4096 in
      map_kernel (fuel + more) pml4 kb ke st ≡ map_kernel fuel pml4 kb ke st
map_kernel-fuel more pml4 kernel_base kernel_end ke st h e =
    let up = align_up_lem 12 52 kernel_end ke (omega arith) e in
    let down : align_down kernel_base 4096 ≡ kernel_base / 4096 * 4096 =
      align_down-page kernel_base h in
    let kb : ℕ = align_down kernel_base 4096 in
    map_kernel-enough ((ke - kb) / 4096 + more) ((ke - kb) / 4096) pml4 kb ke st (omega arith)
      (omega arith)
