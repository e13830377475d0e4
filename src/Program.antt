-- ===== src/Program.antt =====
-- userland/init/src/main.rs: the program of both processes as the system calls that it makes, and one
-- call of it on the machine. Where the linker puts a text and the compiler a buffer are parameters.
pub mod Prints
mod Tests
use Prim.Native.String.{String}
use mantra_os.Common.{
  ℕ, zero, suc, ◌+◌, ◌-◌, ◌*◌, ◌/◌, ◌^◌, min, ltb, ◌==◌, if◌then◌else◌, List, [], ◌∷◌, length,
  get_or,
}
use mantra_os.Common.Bits.{bit_and}
use mantra_os.Common.Text.{codes}
use mantra_os.Common.Word.{u64_max}
use mantra_os.Common.Run.{Run, done, panic, ◌>>=◌}
use mantra_os.Machine.{Frame}
use mantra_os.Elf.{Elf}
use mantra_os.Serial.{hex_table}
use mantra_os.Isr.{syscall_trap}
use mantra_os.Steps.{Processor, trap_frame, trapped, resumed}

-- A program from one of its system calls on: what it puts into the registers before `int 0x80`, and
-- how it goes on with RAX and RDX after it. `stopped` is the end of the rounds that are followed.
pub data Prog : Type 0 where
  int80 : (Frame → Frame) → (ℕ → ℕ → Prog) → Prog
  stopped : Prog

abbrev pub syscall1 : ℕ → ℕ → (ℕ → Prog) → Prog
syscall1 n a1 go = int80 (λ f. record f { rax = n; rdi = a1 }) (λ rax rdx. go rax)

abbrev pub syscall2 : ℕ → ℕ → ℕ → (ℕ → Prog) → Prog
syscall2 n a1 a2 go = int80 (λ f. record f { rax = n; rdi = a1; rsi = a2 }) (λ rax rdx. go rax)

abbrev pub syscall3 : ℕ → ℕ → ℕ → ℕ → (ℕ → Prog) → Prog
syscall3 n a1 a2 a3 go =
    int80 (λ f. record f { rax = n; rdi = a1; rsi = a2; rdx = a3 }) (λ rax rdx. go rax)

abbrev pub syscall4 : ℕ → ℕ → ℕ → ℕ → ℕ → (ℕ → Prog) → Prog
syscall4 n a1 a2 a3 a4 go =
    int80 (λ f. record f { rax = n; rdi = a1; rsi = a2; rdx = a3; rcx = a4 }) (λ rax rdx. go rax)

abbrev pub syscall3_ret_rdx : ℕ → ℕ → ℕ → ℕ → (ℕ → ℕ → Prog) → Prog
syscall3_ret_rdx n a1 a2 a3 go = int80 (λ f. record f { rax = n; rdi = a1; rsi = a2; rdx = a3 }) go

abbrev pub putc : ℕ → Prog → Prog
putc b rest = syscall1 1 b (λ _. rest)

abbrev pub yield : Prog → Prog
yield rest = syscall1 2 0 (λ _. rest)

-- The loop of `put_hex` over the digits below `i`, from the highest.
pub put_digits : ℕ → ℕ → Prog → Prog
put_digits zero v rest = rest
put_digits (suc i) v rest =
    putc (get_or hex_table (bit_and (v / 2 ^ (i * 4)) 0xf) 0) (put_digits i v rest)

pub put_hex : ℕ → Prog → Prog
unfolding put_digits
put_hex v rest = putc b'0' (putc b'x' (put_digits 16 v rest))

-- The address of each text, and of the buffer of 64 bytes.
pub record Layout : Type 0 where
  pub text : String → ℕ
  pub buf : ℕ

module _ (at : Layout) where
  abbrev pub puts : String → Prog → Prog
  puts s rest = syscall2 3 (at.text s) (length (codes s)) (λ _. rest)

  -- A report: a text, a number and the end of the line.
  abbrev pub report : String → ℕ → Prog → Prog
  report s v rest = puts s (put_hex v (puts "\n" rest))

  -- The loop of role 0, for as many rounds.
  pub serve : ℕ → ℕ → Prog
  serve zero ep2 = stopped
  serve (suc rounds) ep2 =
      let rest = serve rounds ep2 in
      syscall3 0x12 ep2 at.buf 64 (λ got.
        if ltb got 0x8000_0000_0000_0000
        then puts "init[0]: recv msg="
            (syscall2 3 at.buf (min got 64) (λ _. puts "\n" (yield rest)))
        else yield rest)

  -- `_start` with role 0.
  pub server : ℕ → Prog
  unfolding serve put_hex
  server rounds = puts "init[0]: server start\n" (
      syscall1 0x10 0 (λ ep. report "init[0]: ep=" ep (
        syscall3 0x20 1 1 ep (λ pid. report "init[0]: spawned pid=" pid (
          syscall1 0x10 0 (λ ep2. report "init[0]: ep2=" ep2 (
            syscall4 0x13 ep (at.text "cap transfer: ep2\n") (length (codes "cap transfer: ep2\n"))
              ep2 (λ sent. report "init[0]: sent cap note=" sent (serve rounds ep2)))))))))

  -- The last loop of another role, for as many rounds.
  pub idle : ℕ → Prog
  idle zero = stopped
  idle (suc rounds) = yield (idle rounds)

  -- After the message has come.
  pub answer : ℕ → ℕ → ℕ → Prog
  unfolding idle
  answer rounds got new_cap =
      let send =
        syscall3 0x11 new_cap (at.text "ping over transferred cap\n")
          (length (codes "ping over transferred cap\n"))
          (λ sent. report "init[1]: sent on new cap=" sent (idle rounds)) in
      puts "init[1]: recv note bytes=" (
        put_hex got (
          puts " cap=" (
            put_hex new_cap (
              puts "\n" (
                if ltb got 0x8000_0000_0000_0000
                then puts "init[1]: note=" (syscall2 3 at.buf (min got 64) (λ _. puts "\n" send))
                else send)))))

  -- The loop that waits for the message, for as many rounds, and `rounds` of the last loop.
  pub await : ℕ → ℕ → ℕ → Prog
  unfolding answer
  await zero rounds ep = stopped
  await (suc tries) rounds ep =
      let again = await tries rounds ep in
      syscall3_ret_rdx 0x14 ep at.buf 64
        (λ got new_cap. if got == u64_max - 2 then yield again else answer rounds got new_cap)

  -- `_start` with another role, which finds `ep` in RSI.
  pub client : ℕ → ℕ → ℕ → Prog
  unfolding await put_hex
  client tries rounds ep =
      puts "init[1]: client start\n" (report "init[1]: ep=" ep (await tries rounds ep))

-- One call on the machine, of a program that is the current process. What it goes on with is right
-- where the call comes back to the same process.
pub call_once : Elf → Prog → Processor → Run (Prog × Processor)
call_once elf stopped p = done (stopped, p)
call_once elf (int80 set go) p =
    let p' : Processor = record p { regs = set p.regs } in
    syscall_trap elf (trap_frame p') (trapped p') >>= λ (tf, k).
    done (go (k.frames tf).rax (k.frames tf).rdx, resumed tf k)

-- As many calls.
pub calls : ℕ → Elf → Prog → Processor → Run (Prog × Processor)
unfolding call_once
calls zero elf prog p = done (prog, p)
calls (suc n) elf prog p = call_once elf prog p >>= λ (prog', p'). calls n elf prog' p'
