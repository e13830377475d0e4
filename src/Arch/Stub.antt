-- ===== src/Arch/Stub.antt =====
-- The assembly stubs of kernel/src/arch/x86_64/isr.rs: the registers that they push, the trap frame
-- that the Rust handlers read in those words, and the registers that the return pops.
use mantra_os.Common.{ℕ, ◌≡◌, refl, List, [], ◌∷◌, Option, none, some}
use mantra_os.Machine.{Frame}

pub data Reg : Type 0 where
  r15 r14 r13 r12 r11 r10 r9 r8 rsi rdi rbp rdx rcx rbx rax : Reg

-- The general registers.
pub record Regs : Type 0 where
  pub r15 : ℕ
  pub r14 : ℕ
  pub r13 : ℕ
  pub r12 : ℕ
  pub r11 : ℕ
  pub r10 : ℕ
  pub r9 : ℕ
  pub r8 : ℕ
  pub rsi : ℕ
  pub rdi : ℕ
  pub rbp : ℕ
  pub rdx : ℕ
  pub rcx : ℕ
  pub rbx : ℕ
  pub rax : ℕ

pub read : Reg → Regs → ℕ
read r15 f = f.r15
read r14 f = f.r14
read r13 f = f.r13
read r12 f = f.r12
read r11 f = f.r11
read r10 f = f.r10
read r9 f = f.r9
read r8 f = f.r8
read rsi f = f.rsi
read rdi f = f.rdi
read rbp f = f.rbp
read rdx f = f.rdx
read rcx f = f.rcx
read rbx f = f.rbx
read rax f = f.rax

pub load : Reg → ℕ → Regs → Regs
load r15 v f = record f { r15 = v }
load r14 v f = record f { r14 = v }
load r13 v f = record f { r13 = v }
load r12 v f = record f { r12 = v }
load r11 v f = record f { r11 = v }
load r10 v f = record f { r10 = v }
load r9 v f = record f { r9 = v }
load r8 v f = record f { r8 = v }
load rsi v f = record f { rsi = v }
load rdi v f = record f { rdi = v }
load rbp v f = record f { rbp = v }
load rdx v f = record f { rdx = v }
load rcx v f = record f { rcx = v }
load rbx v f = record f { rbx = v }
load rax v f = record f { rax = v }

-- What the processor pushes on entry, SS first, and what `iretq` pops, RIP first.
pub record Return : Type 0 where
  pub rip : ℕ
  pub cs : ℕ
  pub rflags : ℕ
  pub rsp : ℕ
  pub ss : ℕ

-- A stack as its words from the top.
abbrev pub entry : Return → List ℕ → List ℕ
entry t stack = t.rip ∷ t.cs ∷ t.rflags ∷ t.rsp ∷ t.ss ∷ stack

-- The pushes of both stubs, in their order.
abbrev pub pushes : List Reg
pushes = rax ∷ rbx ∷ rcx ∷ rdx ∷ rbp ∷ rdi ∷ rsi ∷ r8 ∷ r9 ∷ r10 ∷ r11 ∷ r12 ∷ r13 ∷ r14 ∷ r15 ∷ []

-- The pops of `mantra_trap_return`, in their order.
abbrev pub pops : List Reg
pops = r15 ∷ r14 ∷ r13 ∷ r12 ∷ r11 ∷ r10 ∷ r9 ∷ r8 ∷ rsi ∷ rdi ∷ rbp ∷ rdx ∷ rcx ∷ rbx ∷ rax ∷ []

pub push_all : List Reg → Regs → List ℕ → List ℕ
unfolding read
push_all [] f stack = stack
push_all (r ∷ rs) f stack = push_all rs f (read r f ∷ stack)

pub pop_all : List Reg → Regs → List ℕ → Option (Regs × List ℕ)
unfolding load
pop_all [] f stack = some (f, stack)
pop_all (r ∷ rs) f [] = none
pop_all (r ∷ rs) f (w ∷ stack) = pop_all rs (load r w f) stack

pub iretq : Regs → List ℕ → Option (Regs × Return × List ℕ)
iretq f (rip ∷ cs ∷ rflags ∷ rsp ∷ ss ∷ stack) =
    some (f, record { rip = rip; cs = cs; rflags = rflags; rsp = rsp; ss = ss }, stack)
iretq f _ = none

-- `mantra_trap_return`, whatever the registers hold.
pub trap_return : Regs → List ℕ → Option (Regs × Return × List ℕ)
unfolding pop_all iretq
trap_return f stack = elim (pop_all pops f stack) [ none ↦ none | some (f', rest) ↦ iretq f' rest ]

-- The words of a frame, in the order of the fields of `TrapFrame`.
abbrev pub words : Frame → List ℕ
words f =
    f.r15 ∷ f.r14 ∷ f.r13 ∷ f.r12 ∷ f.r11 ∷ f.r10 ∷ f.r9 ∷ f.r8 ∷ f.rsi ∷ f.rdi ∷ f.rbp ∷ f.rdx
    ∷ f.rcx ∷ f.rbx ∷ f.rax ∷ f.rip ∷ f.cs ∷ f.rflags ∷ f.rsp ∷ f.ss ∷ []

-- The frame of the interrupted code.
abbrev pub frame_of : Regs → Return → Frame
frame_of g t = record {
  r15 = g.r15;
  r14 = g.r14;
  r13 = g.r13;
  r12 = g.r12;
  r11 = g.r11;
  r10 = g.r10;
  r9 = g.r9;
  r8 = g.r8;
  rsi = g.rsi;
  rdi = g.rdi;
  rbp = g.rbp;
  rdx = g.rdx;
  rcx = g.rcx;
  rbx = g.rbx;
  rax = g.rax;
  rip = t.rip;
  cs = t.cs;
  rflags = t.rflags;
  rsp = t.rsp;
  ss = t.ss;
}

abbrev pub regs_of : Frame → Regs
regs_of f = record {
  r15 = f.r15;
  r14 = f.r14;
  r13 = f.r13;
  r12 = f.r12;
  r11 = f.r11;
  r10 = f.r10;
  r9 = f.r9;
  r8 = f.r8;
  rsi = f.rsi;
  rdi = f.rdi;
  rbp = f.rbp;
  rdx = f.rdx;
  rcx = f.rcx;
  rbx = f.rbx;
  rax = f.rax;
}

abbrev pub return_of : Frame → Return
return_of f = record { rip = f.rip; cs = f.cs; rflags = f.rflags; rsp = f.rsp; ss = f.ss }

-- The stub's pushes after the processor's lay the interrupted code's registers out as the frame that
-- the handler reads, each under its name; and from the words of any frame, whatever the registers
-- hold by then, the return takes each register's word, and the processor's five words, and leaves
-- the stack empty.
pub trap_return-push_all :
    (g junk : Regs) (t : Return) (f : Frame)
    → (push_all pushes g (entry t []) ≡ words (frame_of g t))
      × (trap_return junk (words f) ≡ some (regs_of f, return_of f, []))
unfolding push_all read trap_return pop_all load iretq
trap_return-push_all g junk t f = (refl, refl)
