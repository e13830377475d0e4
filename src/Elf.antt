-- ===== src/Elf.antt =====
-- The header fields of an ELF file that `load_elf_into_user` of kernel/src/user.rs reads.
pub mod Valid
use mantra_os.Common.{
  ℕ, suc, zero, ◌+◌, ◌-◌, ◌*◌, ◌^◌, Bool, true, false, not, ◌||◌, ltb, ◌==◌, if◌then◌else◌, List,
  Option, none, some, length, get_or,
}
use mantra_os.Common.Bits.{bit_and}
use mantra_os.Common.Word.{u64_mod, u64_max}

-- The bytes of the file; it is generated by the build from the user program.
abbrev pub Elf : Type 0
Elf = List ℕ

-- `n` bytes at `off`, little-endian.
pub field : Elf → ℕ → ℕ → ℕ
field elf off zero = 0
field elf off (suc n) = get_or elf off 0 + 256 * field elf (off + 1) n

-- `Elf64Ehdr`: the fields that are read.
pub record Ehdr : Type 0 where
  pub magic_ok : Bool
  pub machine : ℕ
  pub entry : ℕ
  pub phoff : ℕ
  pub phentsize : ℕ
  pub phnum : ℕ

-- The six tests of `e_ident`.
pub bad_ident : Elf → Bool
bad_ident elf =
    not (get_or elf 0 0 == 0x7f)
    || not (get_or elf 1 0 == b'E')
    || not (get_or elf 2 0 == b'L')
    || not (get_or elf 3 0 == b'F')
    || not (get_or elf 4 0 == 2)
    || not (get_or elf 5 0 == 1)

unfoldable pub header : Elf → Ehdr
unfolding field bad_ident
header elf = record {
  magic_ok = not (bad_ident elf);
  machine = field elf 18 2;
  entry = field elf 24 8;
  phoff = field elf 32 8;
  phentsize = field elf 54 2;
  phnum = field elf 56 2;
}

abbrev pub ehdr_size : ℕ
ehdr_size = 64

abbrev pub phdr_size : ℕ
phdr_size = 56

-- `Elf64Phdr`: the fields that are read.
pub record Phdr : Type 0 where
  pub type : ℕ
  pub flags : ℕ
  pub offset : ℕ
  pub vaddr : ℕ
  pub filesz : ℕ
  pub memsz : ℕ

unfoldable pub program_header : Elf → ℕ → Phdr
unfolding field
program_header elf at = record {
  type = field elf at 4;
  flags = field elf (at + 4) 4;
  offset = field elf (at + 8) 8;
  vaddr = field elf (at + 16) 8;
  filesz = field elf (at + 32) 8;
  memsz = field elf (at + 40) 8;
}

-- `a.checked_add(b).unwrap_or(usize::MAX) > len`.
abbrev pub beyond : ℕ → ℕ → ℕ → Bool
beyond a b len = ltb len (if ltb (a + b) u64_mod then a + b else u64_max)

-- The tests before the loop over the program headers, in the code's order.
unfoldable pub refused : Elf → Bool
unfolding header
refused elf =
    let eh = header elf in
    ltb (length elf) ehdr_size
    || not eh.magic_ok
    || not (eh.machine == 0x3e)
    || not (eh.phentsize == phdr_size)
    || beyond eh.phoff (eh.phnum * phdr_size) (length elf)
