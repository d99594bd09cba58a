-- ===== src/Session.antt =====
-- The durable session journal of include/ulk/ulk_session.h and
-- runtime/launcher/kernel/ulk_session.c.
pub mod Hex
pub mod Integer
pub mod Crc
pub mod Builder
pub mod Record
pub mod Owned
pub mod Codec
pub mod Files
pub mod Atomic
pub mod Json
pub mod Journal
pub mod Lookup
mod Examples
mod Samples
