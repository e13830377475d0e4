-- ===== src/Arch.antt =====
-- kernel/src/arch/x86_64: the processor's tables, the interrupt controller and the timer, and the
-- stubs that save and restore the registers. The processor's own registers are a record.
pub mod Gdt
pub mod Idt
pub mod Ports
pub mod Devices
pub mod Descriptors
pub mod Rings
pub mod Gates
pub mod Lines
pub mod Stub
mod Tests
