-- ===== src/Arch/Lines.antt =====
-- The writes of kernel/src/arch/x86_64/pic.rs and pit.rs on the devices, and the interrupt lines
-- against the gates of kernel/src/arch/x86_64/idt.rs.
use mantra_os.Common.{
  ℕ, ◌+◌, ◌*◌, ◌/◌, ◌%◌, ◌^◌, min, ◌≤◌, ◌<◌, ◌≡◌, ◌≢◌, refl, ap, ◌∙◌, inl, inr, Bool, true, false,
  not, ◌||◌, leb, ◌==◌, if◌then◌else◌, Bool-cases, get_or, arith,
}
use native.Mathlib.Nat.{le-div_iff_mul-le, div-lt_iff_lt-mul, mod-eq_of_lt}
use mantra_os.Common.Below.{all_below, all_below_lem}
use mantra_os.Common.Bits.{bit_and, bit_and-ones}
use mantra_os.Arch.Ports.{pic_init, eoi, clamp_hz, divisor, pit_init}
use mantra_os.Arch.Devices.{Devices, Controller, mask_word, run, passes, vector}
use mantra_os.Arch.Idt.{Handlers, missing, empty_idt}
use mantra_os.Arch.Idt
use mantra_os.Arch.Gates.{Addresses, gate, meant, interrupt_gate, gate-init}

remapped : Controller → ℕ → ℕ → Controller
remapped c offset mask = record c { offset = offset; mask = mask; expects = mask_word }

run-pic_init :
    (d : Devices)
    → run pic_init d
      ≡ record d { master = remapped d.master 0x20 0xfa; slave = remapped d.slave 0x28 0xff }
unfolding run remapped
run-pic_init d = refl

-- Of the lines of both controllers, `init` lets through 0 and 2 only.
timer_or_cascade : (d : Devices) (irq : ℕ) → Bool
unfolding passes remapped run
timer_or_cascade d irq = not (passes (run pic_init d) irq) || (irq == 0 || irq == 2)

lines_all : (d : Devices) → all_below (timer_or_cascade d) 16 ≡ true
unfolding all_below timer_or_cascade
lines_all d = refl

passes-lines :
    (d : Devices) (irq : ℕ) → irq < 16 → passes (run pic_init d) irq ≡ true → irq ≢ 2 → irq ≡ 0
unfolding timer_or_cascade
passes-lines d irq h on other =
    let test : timer_or_cascade d irq ≡ true =
      all_below_lem (timer_or_cascade d) 16 irq (lines_all d) h in
    ground arith

-- After `init` of the controllers, whatever they held before, with the gates of the interrupt table
-- set for handlers below 2^64: a line that they let through, other than the cascade line 2, is the
-- timer's line 0, and the gate at its vector is the timer stub's, for the kernel only.
pub passes-timer :
    (d : Devices) (cs irq : ℕ) (h : Handlers)
    → Addresses h
    → irq < 16
    → passes (run pic_init d) irq ≡ true
    → irq ≢ 2
    → (irq ≡ 0)
      × (gate (get_or (Idt.init cs h empty_idt) (vector (run pic_init d) irq) missing)
          ≡ interrupt_gate cs 0 0 h.timer_irq_stub)
unfolding run vector meant
passes-timer d cs irq h low lt on other =
    let zero_irq : irq ≡ 0 = passes-lines d irq lt on other in
    (zero_irq, rw zero_irq (gate-init cs 32 h low))

quotient : (c : ℕ) → 19 ≤ c → c ≤ 2000 → (0 < 1193182 / c) × (1193182 / c < 2 ^ 16)
quotient c lo hi = (
  (le-div_iff_mul-le {x = 1} (omega arith)).1 (omega arith),
  (div-lt_iff_lt-mul {y = 2 ^ 16} (omega arith)).1 (omega arith),
)

abbrev rate_divisor : ℕ → ℕ
rate_divisor hz = if leb hz 18 then 751 else 1193182 / min hz 2000

divisor_lem :
    (hz : ℕ) → (divisor hz ≡ rate_divisor hz) × (0 < rate_divisor hz) × (rate_divisor hz < 2 ^ 16)
divisor_lem hz = elim (Bool-cases (leb hz 18)) [
  | inl slow ↦
      let c : clamp_hz hz ≡ 18 = ground arith in
      rw slow (ap (λ t. 1193182 / t % 2 ^ 16) c, omega arith, omega arith)
  | inr fast ↦
      let c : clamp_hz hz ≡ min hz 2000 = ground arith in
      let lo : 19 ≤ min hz 2000 = ground arith in
      let q = quotient (min hz 2000) lo (omega arith) in
      rw fast (ap (λ t. 1193182 / t % 2 ^ 16) c ∙ mod-eq_of_lt q.1, q.0, q.1)
]

two_bytes : (v : ℕ) → v < 2 ^ 16 → bit_and v 0xff % 2 ^ 8 + v / 2 ^ 8 % 2 ^ 8 * 256 ≡ v
two_bytes v h = omega (arith, bit_and-ones 8 v 0xff (omega arith))

-- After `init` of the timer, whatever it held before, the counter has its whole divisor, which is
-- not 0 and fits its 16 bits: for a rate above 18 Hz the quotient of the input clock and the rate,
-- capped at 2000 Hz; for 18 Hz and less the quotient does not fit and 751 is left of it.
pub run-pit_init :
    (hz : ℕ) (d : Devices)
    → let c = (run (pit_init hz) d).counter in
      (c.load ≡ (if leb hz 18 then 751 else 1193182 / min hz 2000))
      × (c.high_next ≡ false)
      × (0 < c.load)
      × (c.load < 2 ^ 16)
unfolding run pit_init
run-pit_init hz d =
    let (same, positive, small) = divisor_lem hz in
    let whole = two_bytes (divisor hz) (rw same small) ∙ same in
    (whole, refl, rw whole positive, rw whole small)

-- The end of interrupt of a line goes to the master, and for a line of the slave to the slave too.
pub run-eoi :
    (irq : ℕ) (d : Devices)
    → let out = run (eoi irq) d in
      (out.master ≡ record d.master { ended = d.master.ended + 1 })
      × (out.slave ≡ (if leb 8 irq then record d.slave { ended = d.slave.ended + 1 } else d.slave))
unfolding run eoi
run-eoi irq d = ground arith
