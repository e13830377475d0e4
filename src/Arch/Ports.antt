-- ===== src/Arch/Ports.antt =====
-- kernel/src/arch/x86_64/pic.rs, pit.rs and port.rs: the writes to the ports of the interrupt
-- controllers and of the timer, in their order.
use mantra_os.Common.{ℕ, ◌+◌, ◌/◌, ◌%◌, ◌^◌, min, max, leb, if◌then◌else◌, List, [], ◌∷◌, ◌++◌}
use mantra_os.Common.Bits.{bit_and, bit_or}

-- A byte written to a port.
pub record Write : Type 0 where
  pub port : ℕ
  pub byte : ℕ

abbrev pub outb : ℕ → ℕ → Write
outb port val = record { port = port; byte = val }

abbrev pub io_wait : Write
io_wait = outb 0x80 0

abbrev pub pic1_cmd : ℕ
pic1_cmd = 0x20

abbrev pub pic1_data : ℕ
pic1_data = 0x20 + 1

abbrev pub pic2_cmd : ℕ
pic2_cmd = 0xa0

abbrev pub pic2_data : ℕ
pic2_data = 0xa0 + 1

abbrev pub icw1_init : ℕ
icw1_init = 0x10

abbrev pub icw1_icw4 : ℕ
icw1_icw4 = 0x01

abbrev pub icw4_8086 : ℕ
icw4_8086 = 0x01

-- `pic::init`.
abbrev pub pic_init : List Write
pic_init =
    outb pic1_cmd (bit_or icw1_init icw1_icw4)
    ∷ io_wait
    ∷ outb pic2_cmd (bit_or icw1_init icw1_icw4)
    ∷ io_wait
    ∷ outb pic1_data 0x20
    ∷ io_wait
    ∷ outb pic2_data 0x28
    ∷ io_wait
    ∷ outb pic1_data 0x04
    ∷ io_wait
    ∷ outb pic2_data 0x02
    ∷ io_wait
    ∷ outb pic1_data icw4_8086
    ∷ io_wait
    ∷ outb pic2_data icw4_8086
    ∷ io_wait
    ∷ outb pic1_data 0b1111_1010
    ∷ outb pic2_data 0b1111_1111
    ∷ []

-- `pic::eoi`.
unfoldable pub eoi : ℕ → List Write
eoi irq = (if leb 8 irq then outb pic2_cmd 0x20 ∷ [] else []) ++ (outb pic1_cmd 0x20 ∷ [])

-- `hz.clamp(18, 2000)`.
abbrev pub clamp_hz : ℕ → ℕ
clamp_hz hz = min (max hz 18) 2000

abbrev pub divisor : ℕ → ℕ
divisor hz = 1193182 / clamp_hz hz % 2 ^ 16

-- `pit::init`.
unfoldable pub pit_init : ℕ → List Write
pit_init hz =
    outb 0x43 0x36
    ∷ outb 0x40 (bit_and (divisor hz) 0xff % 2 ^ 8)
    ∷ outb 0x40 (divisor hz / 2 ^ 8 % 2 ^ 8)
    ∷ []
