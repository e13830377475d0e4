-- ===== src/Serial/Digits.antt =====
-- The number printers of kernel/src/serial.rs and userland/init/src/main.rs against readers of
-- decimal and hexadecimal text.
use mantra_os.Common.{
  ℕ, zero, suc, ◌+◌, ◌-◌, ◌*◌, ◌/◌, ◌%◌, ◌^◌, ◌<◌, ◌≡◌, ◌&&◌, refl, false, sym, ap, ap₂, ◌∙◌, leb,
  ◌==◌, ==_iff, Bool, true, inl, inr, if◌then◌else◌, Bool-cases, List, [], ◌∷◌, Option, none, some,
  get_or, arith,
}
use native.Mathlib.Nat.{pow-suc, pow-zero, div-add-mod, mod-lt, mul-add-mod_self_left, mod-eq_of_lt}
use mantra_os.Common.Bits.{two_pow_add, bit_and, bit_and-ones, two_pow_pos}
use mantra_os.Common.Below.{all_below, all_below_lem}
use mantra_os.Serial.{
  dec_loop, write_dec_u64, hex_digit, hex_loop, write_hex_u64, hex_table, put_hex_loop, put_hex,
}

-- A reader of decimal digits, after a number already read.
pub read_dec : ℕ → List ℕ → Option ℕ
read_dec acc [] = some acc
read_dec acc (c ∷ cs) =
    if leb b'0' c && leb c b'9' then read_dec (acc * 10 + (c - b'0')) cs else none

read_dec-digit :
    (acc v : ℕ) (cs : List ℕ)
    → read_dec acc ((b'0' + v % 10) ∷ cs) ≡ read_dec (acc * 10 + v % 10) cs
unfolding read_dec
read_dec-digit acc v cs = ground arith

read_dec-dec_loop :
    (room v : ℕ) (buf : List ℕ) → v < 10 ^ room → read_dec 0 (dec_loop room v buf) ≡ read_dec v buf
unfolding dec_loop
read_dec-dec_loop zero v buf h = ap (λ n. read_dec n buf) (omega (arith, pow-zero 10))
read_dec-dec_loop (suc room) v buf h = elim (Bool-cases (v == 0)) [
  | inl done ↦ rw done (ap (λ n. read_dec n buf) (ground arith))
  | inr more ↦ rw more (
      read_dec-dec_loop room (v / 10) ((b'0' + v % 10) ∷ buf) (omega (arith, pow-suc 10 room))
      ∙ read_dec-digit (v / 10) v buf
      ∙ ap (λ n. read_dec n buf) (omega arith))
]

-- A reader of decimal text, which is not empty.
pub read_dec_text : List ℕ → Option ℕ
read_dec_text [] = none
read_dec_text (c ∷ cs) = read_dec 0 (c ∷ cs)

-- The loop only adds digits in front.
dec_loop-cons :
    (room v c : ℕ) (buf : List ℕ) → (d : ℕ) × (ds : List ℕ) × (dec_loop room v (c ∷ buf) ≡ d ∷ ds)
unfolding dec_loop
dec_loop-cons zero v c buf = (c, buf, refl)
dec_loop-cons (suc room) v c buf = elim (Bool-cases (v == 0)) [
  | inl end ↦ (c, buf, rw end refl)
  | inr more ↦
      let (d, ds, e) = dec_loop-cons room (v / 10) (b'0' + v % 10) (c ∷ buf) in (d, ds, rw more e)
]

dec_loop-digits : (v : ℕ) → (v == 0) ≡ false → (d : ℕ) × (ds : List ℕ) × (dec_loop 20 v [] ≡ d ∷ ds)
unfolding dec_loop
dec_loop-digits v more =
    let (d, ds, e) = dec_loop-cons 19 (v / 10) (b'0' + v % 10) [] in (d, ds, rw more e)

-- The text that `write_dec_u64` sends for a u64 is not empty and reads back as the number: it is
-- decimal digits only, and the buffer of 20 bytes is long enough.
pub read_dec-write_dec_u64 : (v : ℕ) → v < 2 ^ 64 → read_dec_text (write_dec_u64 v) ≡ some v
unfolding write_dec_u64 read_dec_text read_dec
read_dec-write_dec_u64 v h = elim (Bool-cases (v == 0)) [
  | inl z ↦ rw z (ap some (ground arith))
  | inr pos ↦
      let (d, ds, e) = dec_loop-digits v pos in
      rw pos
        (ap read_dec_text e ∙ sym (ap (read_dec 0) e) ∙ read_dec-dec_loop 20 v [] (omega arith))
]

-- The value of a hexadecimal digit.
abbrev pub digit_value : ℕ → Option ℕ
digit_value c =
    if leb b'0' c && leb c b'9'
    then some (c - b'0')
    else if leb b'a' c && leb c b'f'
    then some (c - b'a' + 10)
    else none

-- A reader of hexadecimal digits, after a number already read.
pub read_hex : ℕ → List ℕ → Option ℕ
read_hex acc [] = some acc
read_hex acc (c ∷ cs) = elim (digit_value c) [ none ↦ none | some d ↦ read_hex (acc * 16 + d) cs ]

abbrev nibble : ℕ → ℕ → ℕ
nibble v i = v / 2 ^ (i * 4) % 16

digit_value-hex_digit : (d : ℕ) → d < 16 → digit_value (hex_digit d) ≡ some d
digit_value-hex_digit d h = ground arith

nibble_lem : (v i : ℕ) → bit_and (v / 2 ^ (i * 4)) 0xf % 256 ≡ nibble v i
nibble_lem v i = omega (arith, bit_and-ones 4 (v / 2 ^ (i * 4)) 0xf (omega arith))

read_hex-digit :
    (acc d : ℕ) (cs : List ℕ)
    → d < 16
    → read_hex acc (hex_digit d ∷ cs) ≡ read_hex (acc * 16 + d) cs
unfolding read_hex
read_hex-digit acc d cs h = rw (digit_value-hex_digit d h, read_hex) refl

sixteen : (i : ℕ) → 2 ^ (suc i * 4) ≡ 2 ^ (i * 4) * 16
sixteen i =
    omega
      (arith, two_pow_add 4 (i * 4), ap (λ n. 2 ^ n) {x = suc i * 4} {y = 4 + i * 4} (omega arith))

split-mod : (v p : ℕ) → 0 < p → v % (p * 16) ≡ v / p % 16 * p + v % p
split-mod v p h =
    let q : ℕ = v / p / 16 in
    let rest : ℕ = v / p % 16 * p + v % p in
    let high : v / p ≡ 16 * q + v / p % 16 = omega arith in
    let split : v ≡ p * 16 * q + rest =
      sym (div-add-mod v p) ∙ ap (λ t. p * t + v % p) high ∙ grind arith in
    let small : rest < p * 16 = grind (arith, mod-lt v h) in
    ap (λ t. t % (p * 16)) split ∙ mul-add-mod_self_left (p * 16) q rest ∙ mod-eq_of_lt small

low_digits : (v i : ℕ) → v % 2 ^ (suc i * 4) ≡ nibble v i * 2 ^ (i * 4) + v % 2 ^ (i * 4)
low_digits v i = ap (λ m. v % m) (sixteen i) ∙ split-mod v (2 ^ (i * 4)) (two_pow_pos (i * 4))

next_digit :
    (i acc v : ℕ)
    → (acc * 16 + nibble v i) * 2 ^ (i * 4) + v % 2 ^ (i * 4)
      ≡ acc * 2 ^ (suc i * 4) + v % 2 ^ (suc i * 4)
next_digit i acc v = rw (low_digits v i, sixteen i) (grind arith)

read_hex-hex_loop :
    (i acc v : ℕ) → read_hex acc (hex_loop i v) ≡ some (acc * 2 ^ (i * 4) + v % 2 ^ (i * 4))
unfolding hex_loop
read_hex-hex_loop zero acc v = unfold read_hex in ap some (omega arith)
read_hex-hex_loop (suc i) acc v = rw (nibble_lem v i) (
    read_hex-digit acc (nibble v i) (hex_loop i v) (omega arith)
    ∙ read_hex-hex_loop i (acc * 16 + nibble v i) v
    ∙ ap some (next_digit i acc v))

-- After the two bytes `0x`, the text that `write_hex_u64` sends for a u64 reads back as the number.
pub read_hex-write_hex_u64 :
    (v : ℕ)
    → v < 2 ^ 64
    → (digits : List ℕ) × (write_hex_u64 v ≡ b'0' ∷ b'x' ∷ digits) × (read_hex 0 digits ≡ some v)
unfolding write_hex_u64
read_hex-write_hex_u64 v h = (hex_loop 16 v, refl, read_hex-hex_loop 16 0 v ∙ ap some (omega arith))

-- The table and the arithmetic agree on a digit.
agrees : ℕ → Bool
agrees d = get_or hex_table d 0 == hex_digit d

all_agree : all_below agrees 16 ≡ true
unfolding all_below agrees
all_agree = refl

get_or-hex_table : (d : ℕ) → d < 16 → get_or hex_table d 0 ≡ hex_digit d
unfolding agrees
get_or-hex_table d h =
    (==_iff (get_or hex_table d 0) (hex_digit d)).0 (all_below_lem agrees 16 d all_agree h)

put_hex_loop-eq-hex_loop : (i v : ℕ) → put_hex_loop i v ≡ hex_loop i v
unfolding put_hex_loop hex_loop
put_hex_loop-eq-hex_loop zero v = refl
put_hex_loop-eq-hex_loop (suc i) v =
    ap₂ (λ c cs. c ∷ cs)
      (ap (λ d. get_or hex_table d 0) (bit_and-ones 4 (v / 2 ^ (i * 4)) 0xf (omega arith))
        ∙ get_or-hex_table (nibble v i) (omega arith)
        ∙ ap hex_digit (sym (nibble_lem v i)))
      (put_hex_loop-eq-hex_loop i v)

-- The user program's printer passes the same bytes to the PUTC call as the kernel's printer sends to
-- the port, for every number.
pub put_hex-eq-write_hex_u64 : (v : ℕ) → put_hex v ≡ write_hex_u64 v
unfolding put_hex write_hex_u64
put_hex-eq-write_hex_u64 v = ap (λ cs. b'0' ∷ b'x' ∷ cs) (put_hex_loop-eq-hex_loop 16 v)
