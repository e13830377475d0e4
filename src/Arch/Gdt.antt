-- ===== src/Arch/Gdt.antt =====
-- kernel/src/arch/x86_64/gdt.rs: the segment descriptors, the task state segment, and the registers
-- that `init` loads. Where the linker puts the statics is a parameter of `init`.
use mantra_os.Common.{
  ℕ, ◌+◌, ◌-◌, ◌*◌, ◌/◌, ◌%◌, ◌^◌, List, [], ◌∷◌, length, set, get_or, if◌then◌else◌, ◌==◌,
}
use mantra_os.Common.Bits.{bit_and, bit_or}

-- `Tss`, less its reserved fields.
pub record Tss : Type 0 where
  pub rsp0 : ℕ
  pub rsp1 : ℕ
  pub rsp2 : ℕ
  pub ist1 : ℕ
  pub ist2 : ℕ
  pub ist3 : ℕ
  pub ist4 : ℕ
  pub ist5 : ℕ
  pub ist6 : ℕ
  pub ist7 : ℕ
  pub iomap_base : ℕ

-- `size_of::<Tss>()`; the record is packed.
abbrev pub tss_size : ℕ
tss_size = 4 + 8 + 8 + 8 + 8 + 8 + 8 + 8 + 8 + 8 + 8 + 8 + 8 + 2 + 2

-- `Tss::new`.
abbrev pub new : Tss
new = record {
  rsp0 = 0;
  rsp1 = 0;
  rsp2 = 0;
  ist1 = 0;
  ist2 = 0;
  ist3 = 0;
  ist4 = 0;
  ist5 = 0;
  ist6 = 0;
  ist7 = 0;
  iomap_base = tss_size % 2 ^ 16;
}

abbrev pub kcode_sel : ℕ
kcode_sel = 0x08

abbrev pub kdata_sel : ℕ
kdata_sel = 0x10

abbrev pub tss_sel : ℕ
tss_sel = 0x18

abbrev pub udata_sel : ℕ
udata_sel = 0x28

abbrev pub ucode_sel : ℕ
ucode_sel = 0x30

abbrev pub gdt_code64 : ℕ
gdt_code64 = 0x00AF_9A00_0000_FFFF

abbrev pub gdt_data : ℕ
gdt_data = 0x00AF_9200_0000_FFFF

abbrev pub gdt_user_code64 : ℕ
gdt_user_code64 = 0x00AF_FA00_0000_FFFF

abbrev pub gdt_user_data : ℕ
gdt_user_data = 0x00AF_F200_0000_FFFF

-- `low`, the seven `|=` in their order.
unfoldable pub tss_low : ℕ → ℕ → ℕ
tss_low base limit =
    let limit_low = bit_or 0 (bit_and limit 0xffff) in
    let base_low = bit_or limit_low (bit_and base 0xffff * 2 ^ 16) in
    let base_mid = bit_or base_low (bit_and (base / 2 ^ 16) 0xff * 2 ^ 32) in
    let kind = bit_or base_mid (0x9 * 2 ^ 40) in
    let present = bit_or kind (2 ^ 47) in
    let limit_high = bit_or present (bit_and (limit / 2 ^ 16) 0xf * 2 ^ 48) in
    bit_or limit_high (bit_and (base / 2 ^ 24) 0xff * 2 ^ 56)

unfoldable pub gdt_tss64 : ℕ → ℕ → ℕ × ℕ
unfolding tss_low
gdt_tss64 base limit = (tss_low base limit, bit_and (base / 2 ^ 32) 0xffff_ffff)

-- Where the linker puts the statics of the module.
pub record Statics : Type 0 where
  pub df_ist_stack : ℕ
  pub kernel_int_stack0 : ℕ
  pub tss0 : ℕ
  pub gdt : ℕ

-- The segment registers, GDTR and the task register.
pub record Segments : Type 0 where
  pub gdtr_base : ℕ
  pub gdtr_limit : ℕ
  pub cs : ℕ
  pub ds : ℕ
  pub es : ℕ
  pub ss : ℕ
  pub tr : ℕ

-- `GDT`, `TSS0` and the registers.
pub record GdtState : Type 0 where
  pub table : List ℕ
  pub tss : Tss
  pub regs : Segments

abbrev pub int_stack_size : ℕ
int_stack_size = 16 * 1024

-- `lgdt`.
unfoldable pub lgdt : List ℕ → ℕ → Segments → Segments
lgdt table at regs = record regs { gdtr_limit = (length table * 8 - 1) % 2 ^ 16; gdtr_base = at }

abbrev pub load_segments : Segments → Segments
load_segments regs = record regs { ds = kdata_sel; es = kdata_sel; ss = kdata_sel; cs = kcode_sel }

-- `ltr`, which also marks the descriptor in the table as busy: bit 1 of its type is set.
abbrev pub mark_busy : ℕ → ℕ
mark_busy d = if d / 2 ^ 41 % 2 == 0 then d + 2 ^ 41 else d

abbrev pub ltr : ℕ → GdtState → GdtState
ltr sel g = record g {
  table = set g.table (sel / 8) (mark_busy (get_or g.table (sel / 8) 0));
  regs = record g.regs { tr = sel };
}

-- The seven entries that `init` stores.
unfoldable pub gdt_entries : ℕ → List ℕ
unfolding gdt_tss64
gdt_entries tss0 =
    let (tss_lo, tss_hi) = gdt_tss64 tss0 (tss_size - 1) in
    0 ∷ gdt_code64 ∷ gdt_data ∷ tss_lo ∷ tss_hi ∷ gdt_user_data ∷ gdt_user_code64 ∷ []

-- `init`, from `TSS0` and the registers as they were.
unfoldable pub init : Statics → Tss → Segments → GdtState
unfolding gdt_entries lgdt
init at tss regs = ltr tss_sel (record {
  table = gdt_entries at.tss0;
  tss = record tss {
    ist1 = at.df_ist_stack + int_stack_size;
    rsp0 = at.kernel_int_stack0 + int_stack_size;
  };
  regs = load_segments (lgdt (gdt_entries at.tss0) at.gdt regs);
})

abbrev pub df_ist_index : ℕ
df_ist_index = 1
