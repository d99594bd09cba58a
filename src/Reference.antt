-- ===== src/Reference.antt =====
-- runtime/launcher/kernel/ulk_reference_model.c: the validation of references and of graphs of them.
pub mod Model
pub mod Validate
pub mod Agreement
pub mod Validity
pub mod Examples
