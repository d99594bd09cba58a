-- ===== src/Registry.antt =====
-- runtime/launcher/kernel/ulk_api.c: the context with its command registry, and the execution of
-- commands.
pub mod Names
pub mod Model
pub mod Store
pub mod Lifetime
pub mod Lookup
pub mod Capacity
pub mod Calls
pub mod Runs
pub mod Success
pub mod Metadata
pub mod Graph
pub mod Payloads
pub mod Execute
pub mod Samples
pub mod Examples
