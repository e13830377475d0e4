-- ===== src/Arch/Idt.antt =====
-- kernel/src/arch/x86_64/idt.rs: the interrupt gates, and what the exception handlers send to the
-- serial port before they stop the processor. The addresses of the handlers are a parameter.
use mantra_os.Common.{ℕ, ◌-◌, ◌*◌, ◌/◌, ◌%◌, ◌^◌, List, ◌++◌, replicate, set, get_or}
use mantra_os.Common.Bits.{bit_and, bit_or}
use mantra_os.Common.Text.{codes}
use mantra_os.Serial.{write_hex_u64}
use mantra_os.Arch.Gdt.{df_ist_index}

pub record IdtEntry : Type 0 where
  pub offset_low : ℕ
  pub selector : ℕ
  pub ist : ℕ
  pub type_attr : ℕ
  pub offset_mid : ℕ
  pub offset_high : ℕ
  pub zero : ℕ

-- `IdtEntry::missing`.
abbrev pub missing : IdtEntry
missing = record {
  offset_low = 0;
  selector = 0;
  ist = 0;
  type_attr = 0;
  offset_mid = 0;
  offset_high = 0;
  zero = 0;
}

-- `set_handler`, where CS holds `cs`. It writes every field.
unfoldable pub set_handler : ℕ → ℕ → IdtEntry → IdtEntry
set_handler cs handler e = record {
  offset_low = handler % 2 ^ 16;
  offset_mid = handler / 2 ^ 16 % 2 ^ 16;
  offset_high = handler / 2 ^ 32 % 2 ^ 32;
  zero = 0;
  selector = cs;
  ist = 0;
  type_attr = 0x8e;
}

unfoldable pub set_ist : ℕ → IdtEntry → IdtEntry
set_ist ist e = record e { ist = bit_and ist 0x7 }

-- `!(0x3 << 5)` of a u8 is 0x9f.
unfoldable pub set_dpl : ℕ → IdtEntry → IdtEntry
set_dpl dpl e = record e {
  type_attr = bit_or (bit_and e.type_attr (255 - 0x3 * 2 ^ 5)) (bit_and dpl 0x3 * 2 ^ 5);
}

-- The addresses of the handlers and of the stubs.
pub record Handlers : Type 0 where
  pub breakpoint_handler : ℕ
  pub double_fault_handler : ℕ
  pub gp_fault_handler : ℕ
  pub page_fault_handler : ℕ
  pub timer_irq_stub : ℕ
  pub syscall80_stub : ℕ

abbrev pub empty_idt : List IdtEntry
empty_idt = replicate 256 missing

-- A method call on `IDT[i]`; every index is below 256.
unfoldable pub change : ℕ → (IdtEntry → IdtEntry) → List IdtEntry → List IdtEntry
change i f idt = set idt i (f (get_or idt i missing))

-- The stores of `init`, in their order.
unfoldable pub init : ℕ → Handlers → List IdtEntry → List IdtEntry
unfolding set_handler set_ist set_dpl change
init cs h idt =
    let breakpoint = change 3 (set_handler cs h.breakpoint_handler) idt in
    let double_fault = change 8 (set_handler cs h.double_fault_handler) breakpoint in
    let own_stack = change 8 (set_ist df_ist_index) double_fault in
    let gp_fault = change 13 (set_handler cs h.gp_fault_handler) own_stack in
    let page_fault = change 14 (set_handler cs h.page_fault_handler) gp_fault in
    let timer = change 32 (set_handler cs h.timer_irq_stub) page_fault in
    let syscall = change 0x80 (set_handler cs h.syscall80_stub) timer in
    change 0x80 (set_dpl 3) syscall

-- The limit that `lidt` loads; an entry is 16 bytes.
abbrev pub idtr_limit : ℕ
idtr_limit = (256 * 16 - 1) % 2 ^ 16

pub record InterruptStackFrame : Type 0 where
  pub rip : ℕ
  pub cs : ℕ
  pub rflags : ℕ
  pub rsp : ℕ
  pub ss : ℕ

-- Whether a handler returns to the interrupted code or stops the processor in `cli; hlt`.
pub data After : Type 0 where
  resumes halts : After

unfoldable pub breakpoint_handler : InterruptStackFrame → List ℕ × After
breakpoint_handler f = (codes "EXC: int3 rip=" ++ write_hex_u64 f.rip ++ codes "\n", resumes)

unfoldable pub double_fault_handler : InterruptStackFrame → List ℕ × After
double_fault_handler f =
    (codes "EXC: double fault rip=" ++ write_hex_u64 f.rip ++ codes "\n", halts)

-- The end of the log of both fault handlers, from the error code on.
unfoldable pub fault_log : InterruptStackFrame → ℕ → List ℕ
fault_log f err =
    write_hex_u64 err
    ++ codes " rip="
    ++ write_hex_u64 f.rip
    ++ codes " cs="
    ++ write_hex_u64 f.cs
    ++ codes " rsp="
    ++ write_hex_u64 f.rsp
    ++ codes " ss="
    ++ write_hex_u64 f.ss
    ++ codes "\n"

unfoldable pub gp_fault_handler : InterruptStackFrame → ℕ → List ℕ × After
unfolding fault_log
gp_fault_handler f err = (codes "EXC: #GP err=" ++ fault_log f err, halts)

-- `cr2` is the address that faulted.
unfoldable pub page_fault_handler : ℕ → InterruptStackFrame → ℕ → List ℕ × After
unfolding fault_log
page_fault_handler cr2 f err =
    (codes "EXC: #PF cr2=" ++ write_hex_u64 cr2 ++ codes " err=" ++ fault_log f err, halts)
