-- ===== src/Elf/Valid.antt =====
-- What the header tests of `load_elf_into_user` in kernel/src/user.rs let through.
use mantra_os.Common.{ℕ, ◌+◌, ◌*◌, ◌≤◌, ◌<◌, ◌≡◌, false, refl, length, get_or, arith}
use mantra_os.Common.Word.{u64_max}
use mantra_os.Elf.{Elf, field, header, bad_ident, refused, beyond}

-- An ELF file of 64 bits, little-endian, for x86-64, that holds its own table of program headers.
pub record IsElf (elf : Elf) : Type 0 where
  pub long_enough : 64 ≤ length elf
  pub magic :
      (get_or elf 0 0 ≡ 0x7f)
      × (get_or elf 1 0 ≡ b'E')
      × (get_or elf 2 0 ≡ b'L')
      × (get_or elf 3 0 ≡ b'F')
  pub class : get_or elf 4 0 ≡ 2
  pub order : get_or elf 5 0 ≡ 1
  pub machine : field elf 18 2 ≡ 0x3e
  pub header_size : field elf 54 2 ≡ 56
  pub headers : field elf 32 8 + field elf 56 2 * 56 ≤ length elf

-- The test holds exactly past the end, for a length that a `usize` can count to.
pub beyond-no : (a b len : ℕ) → len < u64_max → beyond a b len ≡ false → a + b ≤ len
beyond-no a b len h e = ground arith

pub refused-IsElf : (elf : Elf) → length elf < u64_max → refused elf ≡ false → IsElf elf
unfolding refused header bad_ident
refused-IsElf elf h e = record {
  long_enough = ground arith;
  magic = (ground arith, ground arith, ground arith, ground arith);
  class = ground arith;
  order = ground arith;
  machine = ground arith;
  header_size = ground arith;
  headers = beyond-no (field elf 32 8) (field elf 56 2 * 56) (length elf) h (ground arith);
}

pub header_fields :
    (elf : Elf)
    → ((header elf).entry ≡ field elf 24 8)
      × ((header elf).phoff ≡ field elf 32 8)
      × ((header elf).phnum ≡ field elf 56 2)
unfolding header
header_fields elf = (refl, refl, refl)
