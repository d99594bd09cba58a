-- ===== src/Setup.antt =====
-- include/ulk/ulk_setup_handoff.h: what the launcher and the setup program exchange. The child
-- Handoff holds the operations of runtime/launcher/kernel/ulk_setup_handoff.c.
mod Examples
pub mod Checks
pub mod Handoff
pub mod Exchange
pub mod Mirror
pub mod Projection
