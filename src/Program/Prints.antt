-- ===== src/Program/Prints.antt =====
-- The number printer of userland/init/src/main.rs on the machine: its calls end at the serial port.
use mantra_os.Common.{
  ℕ, zero, suc, ◌*◌, ◌/◌, ◌%◌, ◌^◌, ◌<◌, ◌≡◌, refl, sym, ap, subst, ◌∙◌, ◌==◌, ==_iff, true, false,
  ◌≢◌, Bool, List, [], ◌∷◌, ◌++◌, get_or, arith,
}
use mathlib.Core.List.{append_assoc, append-nil}
use mantra_os.Common.Bits.{bit_and, bit_and-ones}
use mantra_os.Common.Below.{all_below, all_below_lem}
use mantra_os.Common.Run.{done, ◌>>=◌}
use mantra_os.Machine.{Frame, set_frame, set_rax, send_serial}
use mantra_os.Elf.{Elf}
use mantra_os.Serial.{hex_table, put_hex_loop, write_hex_u64}
use mantra_os.Serial
use mantra_os.Serial.Digits.{put_hex-eq-write_hex_u64}
use mantra_os.Isr.{syscall_trap, syscall, handle, trap_end}
use mantra_os.Steps.{Processor, entry_frame, trap_frame, resumed}
use mantra_os.Program.{Prog, putc, put_digits, put_hex, call_once, calls}

-- The same kernel but for the bytes sent and the frame of the trap, and the same instruction and stack
-- pointers of the program.
pub record Sent (bytes : List ℕ) (p q : Processor) : Type 0 where
  pub serial : q.kernel.serial ≡ p.kernel.serial ++ bytes
  pub sched : q.kernel.sched ≡ p.kernel.sched
  pub ipc : q.kernel.ipc ≡ p.kernel.ipc
  pub mem : q.kernel.mem ≡ p.kernel.mem
  pub pmm : q.kernel.pmm ≡ p.kernel.pmm
  pub heap : q.kernel.heap ≡ p.kernel.heap
  pub cr3 : q.kernel.cr3 ≡ p.kernel.cr3
  pub range : q.kernel.range ≡ p.kernel.range
  pub frames : (t : ℕ) → t ≢ trap_frame p → q.kernel.frames t ≡ p.kernel.frames t
  pub rip : q.regs.rip ≡ p.regs.rip
  pub rsp : q.regs.rsp ≡ p.regs.rsp

Sent-trans : (xs ys : List ℕ) (p q r : Processor) → Sent xs p q → Sent ys q r → Sent (xs ++ ys) p r
Sent-trans xs ys p q r a b = record {
  serial = b.serial ∙ ap (λ l. l ++ ys) a.serial ∙ append_assoc p.kernel.serial xs ys;
  sched = b.sched ∙ a.sched;
  ipc = b.ipc ∙ a.ipc;
  mem = b.mem ∙ a.mem;
  pmm = b.pmm ∙ a.pmm;
  heap = b.heap ∙ a.heap;
  cr3 = b.cr3 ∙ a.cr3;
  range = b.range ∙ a.range;
  frames = λ t other.
      b.frames t (λ e. other (e ∙ ap (λ s. entry_frame s.rsp0) a.sched)) ∙ a.frames t other;
  rip = b.rip ∙ a.rip;
  rsp = b.rsp ∙ a.rsp;
}

Sent-none : (p : Processor) → Sent [] p p
Sent-none p = record {
  serial = sym (append-nil p.kernel.serial);
  sched = refl;
  ipc = refl;
  mem = refl;
  pmm = refl;
  heap = refl;
  cr3 = refl;
  range = refl;
  frames = λ t other. refl;
  rip = refl;
  rsp = refl;
}

-- One PUTC call.
after_putc : ℕ → Processor → Processor
after_putc b p =
    let f : Frame = record p.regs { rax = 1; rdi = b } in
    let tf = trap_frame p in
    resumed tf (set_rax tf 0 (send_serial (b % 256 ∷ []) (set_frame tf f p.kernel)))

self : (t : ℕ) → (t == t) ≡ true
self t = (==_iff t t).1 refl

putc_once :
    (elf : Elf) (b : ℕ) (rest : Prog) (p : Processor)
    → call_once elf (putc b rest) p ≡ done (rest, after_putc b p)
unfolding call_once syscall_trap syscall handle trap_end after_putc
putc_once elf b rest p = rw (self (trap_frame p)) (rw (self (trap_frame p)) refl)

putc-Sent : (b : ℕ) (p : Processor) → Sent (b % 256 ∷ []) p (after_putc b p)
unfolding after_putc
putc-Sent b p = record {
  serial = refl;
  sched = refl;
  ipc = refl;
  mem = refl;
  pmm = refl;
  heap = refl;
  cr3 = refl;
  range = refl;
  frames =
      λ t other. let differ : (t == trap_frame p) ≡ false = ground (arith, other) in rw differ refl;
  rip = rw (self (trap_frame p)) refl;
  rsp = rw (self (trap_frame p)) refl;
}

-- What some calls of a program come to: the rest of it, and the bytes they have sent.
abbrev Comes : ℕ → Elf → Prog → Prog → Processor → List ℕ → Type 0
Comes n elf prog rest p bytes =
    (q : Processor) × (calls n elf prog p ≡ done (rest, q)) × Sent bytes p q

putc-first :
    (n : ℕ) (elf : Elf) (b : ℕ) (prog rest : Prog) (p : Processor) (bytes : List ℕ)
    → b % 256 ≡ b
    → ((p' : Processor) → Comes n elf prog rest p' bytes)
    → Comes (suc n) elf (putc b prog) rest p (b ∷ bytes)
unfolding calls
putc-first n elf b prog rest p bytes byte more =
    let (q, run, sent) = more (after_putc b p) in
    (
      q,
      ap (λ m. m >>= λ (prog', p'). calls n elf prog' p') (putc_once elf b prog p) ∙ run,
      subst (λ c. Sent (c ∷ bytes) p q) byte
          (Sent-trans (b % 256 ∷ []) bytes p (after_putc b p) q (putc-Sent b p) sent),
    )

is_byte : ℕ → Bool
is_byte d = get_or hex_table d 0 % 256 == get_or hex_table d 0

hex_bytes : all_below is_byte 16 ≡ true
unfolding all_below is_byte
hex_bytes = refl

hex_byte : (v : ℕ) → let b = get_or hex_table (bit_and v 0xf) 0 in b % 256 ≡ b
unfolding is_byte
hex_byte v =
    let d : ℕ = bit_and v 0xf in
    let small : d < 16 = omega (arith, bit_and-ones 4 v 0xf refl) in
    (==_iff (get_or hex_table d 0 % 256) (get_or hex_table d 0)).0
      (all_below_lem is_byte 16 d hex_bytes small)

put_digits-Comes :
    (i : ℕ) (elf : Elf) (v : ℕ) (rest : Prog) (p : Processor)
    → Comes i elf (put_digits i v rest) rest p (put_hex_loop i v)
unfolding put_digits put_hex_loop
put_digits-Comes zero elf v rest p = (p, unfold calls in refl, Sent-none p)
put_digits-Comes (suc i) elf v rest p =
    putc-first i elf (get_or hex_table (bit_and (v / 2 ^ (i * 4)) 0xf) 0) (put_digits i v rest) rest
      p (put_hex_loop i v) (hex_byte (v / 2 ^ (i * 4))) (λ p'. put_digits-Comes i elf v rest p')

-- The 18 calls of `put_hex` for any number, from any kernel and program, all return to the program,
-- which then goes on as it would; together they send to the serial port the bytes that the kernel's
-- own `write_hex_u64` sends for that number, and change nothing else of the kernel but the frame of
-- the trap, nor the program's instruction and stack pointers.
pub put_hex-Sent :
    (elf : Elf) (v : ℕ) (rest : Prog) (p : Processor)
    → (q : Processor) × (calls 18 elf (put_hex v rest) p ≡ done (rest, q))
      × Sent (write_hex_u64 v) p q
unfolding put_hex
put_hex-Sent elf v rest p =
    let (q, run, sent) =
      putc-first 17 elf b'0' (putc b'x' (put_digits 16 v rest)) rest p (b'x' ∷ put_hex_loop 16 v)
        refl
        (λ p1.
          putc-first 16 elf b'x' (put_digits 16 v rest) rest p1 (put_hex_loop 16 v) refl
            (λ p2. put_digits-Comes 16 elf v rest p2)) in
    (
      q,
      run,
      subst (λ bytes. Sent bytes p q) (put_hex-eq-write_hex_u64 v) (unfold Serial.put_hex in sent),
    )
