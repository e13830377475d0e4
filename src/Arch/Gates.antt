-- ===== src/Arch/Gates.antt =====
-- The interrupt gates of kernel/src/arch/x86_64/idt.rs as the processor reads them.
use mantra_os.Common.{
  ℕ, zero, suc, ◌+◌, ◌*◌, ◌/◌, ◌%◌, ◌^◌, ◌<◌, ◌≡◌, ◌≢◌, refl, sym, ap, ◌∙◌, ◌==◌, if◌then◌else◌,
  List, replicate, get_or, get_or-set_ne, Option, none, some, arith,
}
use native.Mathlib.Decide.{ℕ_discrete}
use mantra_os.Arch.Gdt.{df_ist_index}
use mantra_os.Arch.Idt.{
  IdtEntry, missing, set_handler, set_ist, set_dpl, Handlers, empty_idt, change, init,
}

-- A gate that is present: where it goes, on which stack, and from which ring software may use it.
pub record Gate : Type 0 where
  pub handler : ℕ
  pub selector : ℕ
  pub stack : ℕ
  pub kind : ℕ
  pub ring : ℕ

-- How the processor reads an entry.
unfoldable pub gate : IdtEntry → Option Gate
gate e =
    if e.type_attr / 2 ^ 7 % 2 == 1
    then some (record {
      handler = e.offset_low + e.offset_mid * 2 ^ 16 + e.offset_high * 2 ^ 32;
      selector = e.selector;
      stack = e.ist % 8;
      kind = e.type_attr % 2 ^ 4;
      ring = e.type_attr / 2 ^ 5 % 2 ^ 2;
    })
    else none

-- An interrupt gate of 64-bit mode, which turns interrupts off.
abbrev pub interrupt_gate : ℕ → ℕ → ℕ → ℕ → Option Gate
interrupt_gate cs stack ring handler =
    some (record { handler = handler; selector = cs; stack = stack; kind = 0xe; ring = ring })

-- The gate that each vector is meant to have.
unfoldable pub meant : ℕ → Handlers → ℕ → Option Gate
meant cs h v =
    if v == 3
    then interrupt_gate cs 0 0 h.breakpoint_handler
    else if v == 8
    then interrupt_gate cs 1 0 h.double_fault_handler
    else if v == 13
    then interrupt_gate cs 0 0 h.gp_fault_handler
    else if v == 14
    then interrupt_gate cs 0 0 h.page_fault_handler
    else if v == 32
    then interrupt_gate cs 0 0 h.timer_irq_stub
    else if v == 0x80
    then interrupt_gate cs 0 3 h.syscall80_stub
    else none

-- Every handler lies at an address below 2^64.
pub record Addresses (h : Handlers) : Type 0 where
  pub breakpoint : h.breakpoint_handler < 2 ^ 64
  pub double_fault : h.double_fault_handler < 2 ^ 64
  pub gp_fault : h.gp_fault_handler < 2 ^ 64
  pub page_fault : h.page_fault_handler < 2 ^ 64
  pub timer : h.timer_irq_stub < 2 ^ 64
  pub syscall : h.syscall80_stub < 2 ^ 64

joined :
    (a : ℕ)
    → a < 2 ^ 64
    → a % 2 ^ 16 + a / 2 ^ 16 % 2 ^ 16 * 2 ^ 16 + a / 2 ^ 32 % 2 ^ 32 * 2 ^ 32 ≡ a
joined a h = omega arith

get_or-change_ne :
    (i v : ℕ) (f : IdtEntry → IdtEntry) (idt : List IdtEntry)
    → v ≢ i
    → get_or (change i f idt) v missing ≡ get_or idt v missing
unfolding change
get_or-change_ne i v f idt differ =
    get_or-set_ne idt (f (get_or idt i missing)) missing (λ e. differ (sym e))

get_or-empty : (n v : ℕ) → get_or (replicate n missing) v missing ≡ missing
get_or-empty zero v = refl
get_or-empty (suc n) zero = refl
get_or-empty (suc n) (suc v) = get_or-empty n v

-- A vector that no store names keeps no gate.
other :
    (cs v : ℕ) (h : Handlers)
    → v ≢ 3
    → v ≢ 8
    → v ≢ 13
    → v ≢ 14
    → v ≢ 32
    → v ≢ 0x80
    → get_or (init cs h empty_idt) v missing ≡ missing
unfolding init
other cs v h a b c d e f =
    let t0 = empty_idt in
    let t1 = change 3 (set_handler cs h.breakpoint_handler) t0 in
    let t2 = change 8 (set_handler cs h.double_fault_handler) t1 in
    let t3 = change 8 (set_ist df_ist_index) t2 in
    let t4 = change 13 (set_handler cs h.gp_fault_handler) t3 in
    let t5 = change 14 (set_handler cs h.page_fault_handler) t4 in
    let t6 = change 32 (set_handler cs h.timer_irq_stub) t5 in
    let t7 = change 0x80 (set_handler cs h.syscall80_stub) t6 in
    get_or-change_ne 0x80 v (set_dpl 3) t7 f
    ∙ get_or-change_ne 0x80 v (set_handler cs h.syscall80_stub) t6 f
    ∙ get_or-change_ne 32 v (set_handler cs h.timer_irq_stub) t5 e
    ∙ get_or-change_ne 14 v (set_handler cs h.page_fault_handler) t4 d
    ∙ get_or-change_ne 13 v (set_handler cs h.gp_fault_handler) t3 c
    ∙ get_or-change_ne 8 v (set_ist df_ist_index) t2 b
    ∙ get_or-change_ne 8 v (set_handler cs h.double_fault_handler) t1 b
    ∙ get_or-change_ne 3 v (set_handler cs h.breakpoint_handler) t0 a
    ∙ get_or-empty 256 v

gate_with :
    (cs stack ring a : ℕ)
    → a < 2 ^ 64
    → interrupt_gate cs stack ring
        (a % 2 ^ 16 + a / 2 ^ 16 % 2 ^ 16 * 2 ^ 16 + a / 2 ^ 32 % 2 ^ 32 * 2 ^ 32)
      ≡ interrupt_gate cs stack ring a
gate_with cs stack ring a h = ap (interrupt_gate cs stack ring) (joined a h)

-- After `init` on the empty table, where every handler lies below 2^64: each vector has exactly the
-- gate that is meant for it, with the handler's address, the kernel's code selector, the stack and
-- the ring; so software in ring 3 can use vector 0x80 only, and the double fault has its own stack.
pub gate-init :
    (cs v : ℕ) (h : Handlers)
    → Addresses h
    → gate (get_or (init cs h empty_idt) v missing) ≡ meant cs h v
unfolding gate meant init set_handler set_ist set_dpl change
gate-init cs v h low = elim (ℕ_discrete v 3) [
  | yes at ↦ rw at (gate_with cs 0 0 h.breakpoint_handler low.breakpoint)
  | no a ↦ elim (ℕ_discrete v 8) [
    | yes at ↦ rw at (gate_with cs 1 0 h.double_fault_handler low.double_fault)
    | no b ↦ elim (ℕ_discrete v 13) [
      | yes at ↦ rw at (gate_with cs 0 0 h.gp_fault_handler low.gp_fault)
      | no c ↦ elim (ℕ_discrete v 14) [
        | yes at ↦ rw at (gate_with cs 0 0 h.page_fault_handler low.page_fault)
        | no d ↦ elim (ℕ_discrete v 32) [
          | yes at ↦ rw at (gate_with cs 0 0 h.timer_irq_stub low.timer)
          | no e ↦ elim (ℕ_discrete v 0x80) [
            | yes at ↦ rw at (gate_with cs 0 3 h.syscall80_stub low.syscall)
            | no f ↦ ap gate (other cs v h a b c d e f) ∙ ground arith
          ]
        ]
      ]
    ]
  ]
]
