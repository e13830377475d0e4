-- ===== src/Arch/Devices.antt =====
-- The two interrupt controllers (8259A) and the counter (8254) that the ports of
-- kernel/src/arch/x86_64/pic.rs and pit.rs reach, as their data sheets describe them.
use mantra_os.Common.{
  ℕ, ◌+◌, ◌-◌, ◌*◌, ◌/◌, ◌%◌, ◌^◌, Bool, true, false, ◌&&◌, ltb, ◌==◌, if◌then◌else◌, List, [], ◌∷◌,
}
use mantra_os.Arch.Ports.{Write}

-- What a controller takes the next byte at its data port for: the mask, or a word of the
-- initialisation.
pub data Expects : Type 0 where
  mask_word second_word third_word fourth_word : Expects

pub record Controller : Type 0 where
  pub offset : ℕ
  pub mask : ℕ
  pub expects : Expects
  -- the ends of interrupt that it has been told of
  pub ended : ℕ

-- The command port: bit 4 starts the initialisation and clears the mask, and 0x20 is the end of an
-- interrupt.
pub command : ℕ → Controller → Controller
command b c =
    if b / 16 % 2 == 1
    then record c { expects = second_word; mask = 0 }
    else if b == 0x20
    then record c { ended = c.ended + 1 }
    else c

-- The data port.
pub datum : ℕ → Controller → Controller
datum b c = elim c.expects [
  | mask_word ↦ record c { mask = b }
  | second_word ↦ record c { offset = b / 8 * 8; expects = third_word }
  | third_word ↦ record c { expects = fourth_word }
  | fourth_word ↦ record c { expects = mask_word }
]

-- Channel 0 of the counter: it loads two bytes, the low one first.
pub record Counter : Type 0 where
  pub low : ℕ
  pub high_next : Bool
  pub load : ℕ

pub mode : ℕ → Counter → Counter
mode b c = if b == 0x36 then record c { high_next = false } else c

pub reload : ℕ → Counter → Counter
reload b c =
    if c.high_next
    then record c { high_next = false; load = c.low + b * 256 }
    else record c { high_next = true; low = b }

pub record Devices : Type 0 where
  pub master : Controller
  pub slave : Controller
  pub counter : Counter

pub write : Devices → Write → Devices
unfolding command datum mode reload
write d w =
    if w.port == 0x20
    then record d { master = command w.byte d.master }
    else if w.port == 0x21
    then record d { master = datum w.byte d.master }
    else if w.port == 0xa0
    then record d { slave = command w.byte d.slave }
    else if w.port == 0xa1
    then record d { slave = datum w.byte d.slave }
    else if w.port == 0x43
    then record d { counter = mode w.byte d.counter }
    else if w.port == 0x40
    then record d { counter = reload w.byte d.counter }
    else d

unfoldable pub run : List Write → Devices → Devices
unfolding write
run [] d = d
run (w ∷ ws) d = run ws (write d w)

-- The line is not masked; the slave's requests come through line 2 of the master.
unfoldable pub passes : Devices → ℕ → Bool
passes d irq =
    if ltb irq 8
    then d.master.mask / 2 ^ irq % 2 == 0
    else d.slave.mask / 2 ^ (irq - 8) % 2 == 0 && d.master.mask / 2 ^ 2 % 2 == 0

-- The vector of a line.
unfoldable pub vector : Devices → ℕ → ℕ
vector d irq = if ltb irq 8 then d.master.offset + irq else d.slave.offset + (irq - 8)
