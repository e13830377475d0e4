-- ===== src/Start/Same.antt =====
-- What the steps of `_start` in kernel/src/main.rs leave alone.
use mantra_os.Common.{
  ℕ, zero, suc, ◌+◌, ◌≡◌, inl, inr, refl, ◌∙◌, Option-cases, List, [], ◌∷◌, ◌++◌,
}
use mantra_os.Common.Text.{codes}
use mantra_os.Common.Run.{Run, done, panic, ◌>>=◌, Run-cases}
use mantra_os.Bootinfo.{BootInfo}
use mantra_os.Pmm.{alloc_frame}
use mantra_os.Heap.{Bump}
use mantra_os.Heap
use mantra_os.Serial.{write_hex_u64}
use mantra_os.Fb.{clear, set_colors, write_str}
use mantra_os.Fb
use mantra_os.Paging.{Paging, kmap_smoke_test}
use mantra_os.Paging
use mantra_os.Elf.{Elf}
use mantra_os.Start.{
  World, Placement, Library, log, print, open_console, dark, light, frame_buffer, start_paging,
  start_heap, test_kmap, take_frames, print_all,
}

-- A result, if there is one, has the property; a panic halts the machine.
abbrev pub After {ℓ κ} : {A : Type ℓ} → (A → Type κ) → Run A → Type κ
After P panic = Unit
After P (done a) = P a

pub bind-After {ℓ κ} :
    {A : Type ℓ} {B : Type ℓ} (P : A → Type κ) (Q : B → Type κ) (m : Run A) (f : A → Run B)
    → After P m
    → ((a : A) → P a → After Q (f a))
    → After Q (m >>= f)
bind-After P Q panic f h k = tt
bind-After P Q (done a) f h k = k a h

-- What the steps of the start leave alone: the processes, the endpoints, the descriptors.
pub record Same (w w' : World) : Type 0 where
  pub sched : w'.kernel.sched ≡ w.kernel.sched
  pub ipc : w'.kernel.ipc ≡ w.kernel.ipc
  pub gdt : w'.gdt ≡ w.gdt
  pub interrupts : w'.interrupts ≡ w.interrupts

pub same : (w : World) → Same w w
same w = record { sched = refl; ipc = refl; gdt = refl; interrupts = refl }

pub keep :
    (w0 w w' : World)
    → w'.kernel.sched ≡ w.kernel.sched
    → w'.kernel.ipc ≡ w.kernel.ipc
    → w'.gdt ≡ w.gdt
    → w'.interrupts ≡ w.interrupts
    → Same w0 w
    → Same w0 w'
keep w0 w w' a b c d s = record {
  sched = a ∙ s.sched;
  ipc = b ∙ s.ipc;
  gdt = c ∙ s.gdt;
  interrupts = d ∙ s.interrupts;
}

-- A step that computes something, and then a world in which the four are those of `w`.
step {ℓ} :
    {A : Type ℓ} (w0 : World) (m : Run A) (f : A → World)
    → ((a : A) → Same w0 (f a))
    → After (Same w0) (m >>= λ a. done (f a))
step w0 panic f h = tt
step w0 (done a) f h = h a

pub print-Same : (w0 w : World) (line : List ℕ) → Same w0 w → After (Same w0) (print line w)
unfolding print
print-Same w0 w line s =
    step w0 (write_str (line ++ codes "\n") w.con w.kernel.mem)
      (λ (con, m). record w { con = con; kernel = record w.kernel { mem = m } })
      (λ (con, m). keep w0 w _ refl refl refl refl s)

pub open_console-Same :
    (w0 w : World) (bi : BootInfo) → Same w0 w → After (Same w0) (open_console bi w)
unfolding open_console
open_console-Same w0 w bi s =
    step w0 (clear dark (Fb.new (frame_buffer bi)) w.kernel.mem)
      (λ (con, m). record w {
        con = set_colors light dark con;
        kernel = record w.kernel { mem = m };
      })
      (λ (con, m). keep w0 w _ refl refl refl refl s)

pub start_paging-Same : (w0 w : World) (max : ℕ) → Same w0 w → After (Same w0) (start_paging max w)
unfolding start_paging
start_paging-Same w0 w max s =
    elim (Run-cases
      (Paging.init max w.paging (record { pmm = w.kernel.pmm; mem = w.kernel.mem }))) [
        | inl failed ↦ rw (failed, After) tt
        | inr ((p, st), made) ↦ rw (made, After) (keep w0 w _ refl refl refl refl s)
      ]

pub start_heap-Same : (w0 w : World) → Same w0 w → After (Same w0) (start_heap w)
unfolding start_heap
start_heap-Same w0 w s =
    step w0 (Heap.init w.kernel.heap w.kernel.pmm)
      (λ (heap, pmm). record w { kernel = record w.kernel { heap = heap; pmm = pmm } })
      (λ (heap, pmm). keep w0 w _ refl refl refl refl s)

pub test_kmap-Same : (w0 w : World) → Same w0 w → After (Same w0) (test_kmap w)
unfolding test_kmap
test_kmap-Same w0 w s =
    elim (Run-cases
      (kmap_smoke_test w.paging (record { pmm = w.kernel.pmm; mem = w.kernel.mem }))) [
        | inl failed ↦ rw (failed, After) tt
        | inr (((p, bytes), st), made) ↦ rw (made, After) (keep w0 w _ refl refl refl refl s)
      ]

-- A line on the console, and the rest.
told :
    (w0 w : World) (line : List ℕ) (f : World → Run World)
    → ((w' : World) → Same w0 w' → After (Same w0) (f w'))
    → Same w0 w
    → After (Same w0) (print line w >>= f)
told w0 w line f h s = bind-After (Same w0) (Same w0) (print line w) f (print-Same w0 w line s) h

pub print_all-Same :
    (w0 w : World) (lines : List (List ℕ)) → Same w0 w → After (Same w0) (print_all lines w)
unfolding print_all
print_all-Same w0 w [] s = s
print_all-Same w0 w (line ∷ lines) s =
    told w0 w line (print_all lines) (λ w'. print_all-Same w0 w' lines) s

module _ (lib : Library) (elf : Elf) (at : Placement) where
  pub take_frames-Same :
      (left n : ℕ) (w0 w : World) → Same w0 w → After (Same w0) (take_frames lib elf at left n w)
  unfolding take_frames
  take_frames-Same zero n w0 w s = s
  take_frames-Same (suc left) n w0 w s =
      let w' : World = record w {
        kernel = record w.kernel { pmm = (alloc_frame w.kernel.pmm).1 };
      } in
      let rest = take_frames-Same left (n + 1) w0 in
      elim (Option-cases (alloc_frame w.kernel.pmm).0) [
        | inl out ↦
            rw (out, After)
              (told w0 (log (codes "mantracore: alloc_frame failed\n") w')
                (codes "Frame" ++ lib.display n ++ codes " FAIL")
                (take_frames lib elf at left (n + 1)) rest (keep w0 w _ refl refl refl refl s))
        | inr (p, got) ↦
            rw (got, After)
              (told w0
                (log (codes "mantracore: alloc_frame ok " ++ write_hex_u64 p ++ codes "\n") w')
                (codes "Frame" ++ lib.display n ++ codes " " ++ lib.alternate_hex p)
                (take_frames lib elf at left (n + 1)) rest (keep w0 w _ refl refl refl refl s))
      ]
