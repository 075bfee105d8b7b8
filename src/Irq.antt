-- ===== src/Irq.antt =====
-- kernel/arch/x86_64/irq-core.c: the pure core of the interrupt-controller code.
pub mod Vectors
pub mod Routes
pub mod Ranges
mod Tests
