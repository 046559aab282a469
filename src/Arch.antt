-- ===== src/Arch.antt =====
-- kernel/arch: the segment descriptors, the task state segment, the interrupt gates and the
-- interrupt controllers. What the linker and the CPU supply, the addresses of the tables and of the
-- assembly stubs, is an argument; a byte written to an I/O port is an event.
pub mod Gdt
pub mod Idt
pub mod Irq
pub mod Isr
mod Tests
