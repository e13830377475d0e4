-- ===== src/Serial.antt =====
-- kernel/src/serial.rs: the bytes that the number printers send to the port; and the printer of
-- userland/init/src/main.rs, which sends its bytes by system calls.
pub mod Digits
mod Tests
use mantra_os.Common.{
  ℕ, zero, suc, ◌+◌, ◌-◌, ◌*◌, ◌/◌, ◌%◌, ◌^◌, leb, ◌==◌, if◌then◌else◌, List, [], ◌∷◌, get_or,
}
use mantra_os.Common.Bits.{bit_and}

-- The loop of `write_dec_u64` with `room` bytes of the buffer left. `buf` holds the digits so far as
-- they are sent, the last one first.
pub dec_loop : ℕ → ℕ → List ℕ → List ℕ
dec_loop zero v buf = buf
dec_loop (suc room) v buf =
    let rest = dec_loop room (v / 10) ((b'0' + v % 10) ∷ buf) in if v == 0 then buf else rest

pub write_dec_u64 : ℕ → List ℕ
write_dec_u64 v = if v == 0 then b'0' ∷ [] else dec_loop 20 v []

abbrev pub hex_digit : ℕ → ℕ
hex_digit d = if leb d 9 then b'0' + d else b'a' + (d - 10)

-- The loop of `write_hex_u64` over the digits below `i`, from the highest.
pub hex_loop : ℕ → ℕ → List ℕ
hex_loop zero v = []
hex_loop (suc i) v = hex_digit (bit_and (v / 2 ^ (i * 4)) 0xf % 256) ∷ hex_loop i v

pub write_hex_u64 : ℕ → List ℕ
unfolding hex_loop
write_hex_u64 v = b'0' ∷ b'x' ∷ hex_loop 16 v

-- `hex` of `put_hex`.
abbrev pub hex_table : List ℕ
hex_table =
    b'0' ∷ b'1' ∷ b'2' ∷ b'3' ∷ b'4' ∷ b'5' ∷ b'6' ∷ b'7' ∷ b'8' ∷ b'9' ∷ b'a' ∷ b'b' ∷ b'c' ∷ b'd'
    ∷ b'e' ∷ b'f' ∷ []

-- The loop of `put_hex`; the index is below 16.
unfoldable pub put_hex_loop : ℕ → ℕ → List ℕ
put_hex_loop zero v = []
put_hex_loop (suc i) v = get_or hex_table (bit_and (v / 2 ^ (i * 4)) 0xf) 0 ∷ put_hex_loop i v

-- The bytes that `put_hex` passes to the PUTC call.
unfoldable pub put_hex : ℕ → List ℕ
unfolding put_hex_loop
put_hex v = b'0' ∷ b'x' ∷ put_hex_loop 16 v
