-- ===== src/Image/Tests.antt =====
-- A kernel of two segments, one with memory that the file does not have.
use mantra_os.Common.{ℕ, ◌≡◌, refl, true, List, [], ◌∷◌, Option, none, some, arith}
use mantra_os.Common.Run.{Run, done, panic}
use mantra_os.Memory.{Mem}
use mantra_os.Image.{Segment, Loaded, load_kernel}
use mantra_os.Image.Kernel.{Holds, load_kernel-Holds}

abbrev file : List ℕ
file = 0x7f ∷ 0x45 ∷ 0x90 ∷ 0xf4 ∷ 1 ∷ 2 ∷ []

abbrev segments : List Segment
segments =
    record { vaddr = 0x10_0010; memsz = 2; filesz = 2; offset = 2 }
    ∷ record { vaddr = 0x10_2000; memsz = 0x1200; filesz = 2; offset = 4 }
    ∷ []

abbrev nowhere : Loaded
nowhere = record { load_base = 0; load_end = 0; mem = λ a. 0 }

abbrev answer : Run (Option Loaded) → Loaded
answer panic = nowhere
answer (done none) = nowhere
answer (done (some l)) = l

abbrev noise : Mem
noise a = 0xaa

abbrev kernel : Loaded
kernel = answer (load_kernel (λ base pages. true) file segments noise)

loads : load_kernel (λ base pages. true) file segments noise ≡ done (some kernel)
unfolding load_kernel
loads = refl

load_kernel-Holds_example : Holds file segments noise kernel
load_kernel-Holds_example =
    load_kernel-Holds (λ base pages. true) file segments noise kernel (omega arith) loads
