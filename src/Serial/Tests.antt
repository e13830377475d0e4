-- ===== src/Serial/Tests.antt =====
-- Numbers as text.
use mantra_os.Common.{ℕ, ◌≡◌, refl, List, [], ◌∷◌, some, arith}
use mantra_os.Serial.{dec_loop, write_dec_u64, write_hex_u64}
use mantra_os.Serial.Digits.{
  read_dec_text, read_dec-write_dec_u64, read_hex, read_hex-write_hex_u64,
}

writes : write_dec_u64 4096 ≡ b'4' ∷ b'0' ∷ b'9' ∷ b'6' ∷ []
unfolding write_dec_u64 dec_loop
writes = refl

read_dec-write_dec_u64_example : read_dec_text (write_dec_u64 4096) ≡ some 4096
read_dec-write_dec_u64_example = read_dec-write_dec_u64 4096 (omega arith)

read_hex-write_hex_u64_example :
    (digits : List ℕ) × (write_hex_u64 0xbeef ≡ b'0' ∷ b'x' ∷ digits)
    × (read_hex 0 digits ≡ some 0xbeef)
read_hex-write_hex_u64_example = read_hex-write_hex_u64 0xbeef (omega arith)
