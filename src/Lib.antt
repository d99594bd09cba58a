-- ===== src/Lib.antt =====
-- A verification library for the launcher kernel of the universal launcher.
--
-- The program's core is a C library. An operation (runtime/client/ulk_operation.c) has an identity
-- and ends in an outcome. A session journal (runtime/launcher/kernel/ulk_session.c) stores one file
-- for each session of a runnable, with the outcome of the operation that ended it. The setup
-- hand-off (runtime/launcher/kernel/ulk_setup_handoff.c) forwards reviewed plans to a setup program
-- and projects its results on the launcher's install references. A context
-- (runtime/launcher/kernel/ulk_api.c) holds a registry of commands with their handlers, executes the
-- registered and the built-in ones, and renders the graph of all of them as JSON. A client
-- (runtime/client/ulk_client.c) hands requests to a transport, and a response is kept by an owned copy
-- (runtime/client/ulk_owned_response.c). References between products, installs, instances, profiles,
-- artifact sets and launch plans are checked by ulk_reference_model.c, the composition of a product
-- with its entrypoints by ulk_product_composition.c, both in runtime/launcher/kernel.
--
-- Files. View is include/ulk/ulk_types.h and ulk_error.h: a string view is a null pointer with the
-- size that the caller claims, or the bytes it covers; a null pointer to a structure is `none`; an
-- enumeration is a data type with a last constructor for every other value; int and int64_t are
-- the ℤ of Prelude.Int, size_t is ℕ with its wrap-around written out; the sizes of structures are
-- those of a platform with 64-bit pointers.
--   Prelude: shared tests, lists, bytes and integers.
--   Operation: the validators of ulk_operation.c, named as there without the prefix `ulk_`.
--   Session.Record and Session.Owned: the records of include/ulk/ulk_session.h, their validation, and
--     the owned copies. A character array is the C string that it holds.
--   Session.Hex, Session.Integer, Session.Crc: the text forms of fields (ulk_decode_hex,
--     ulk_parse_i64, ulk_crc32; strtoll, strtoul and printf as the C standard has them).
--   Session.Builder and Session.Codec: ulk_text_builder, ulk_serialize_record, ulk_parse_record.
--   Session.Files: ulk_scan_records on a directory, which is a list of names and contents.
--   Session.Atomic: ulk_write_file_atomic with its temporary file, step by step.
--   Session.Journal: ulk_session_journal_write_v1. Session.Lookup and Session.Json: inspect, last
--     run and list, with their JSON.
--   Setup.Checks, Setup.Exchange and Setup.Handoff: the structures of include/ulk/ulk_setup_handoff.h
--     and the functions of ulk_setup_handoff.c.
--   Memory: the heap behind an allocator, as the blocks that are live; it numbers the calls of alloc,
--     and a parameter says which of them deliver. Command: requests and responses of commands.
--   Response: owned copies, named as in ulk_owned_response.c without `ulk_owned_`.
--   Registry.Names: the tests on names and effects. Registry.Model, Registry.Store and
--     Registry.Lifetime: the context, ulk_command_register_v1 and _v2, ulk_command_unregister_v1,
--     ulk_context_create_v1, ulk_context_destroy_v1.
--     Registry.Metadata and Registry.Graph: the rows of the graph and ulk_build_command_graph.
--     Registry.Payloads and Registry.Execute: ulk_dispatch_builtin and ulk_command_execute_v1, with the
--     call of a handler as the parameter `invoke`. Registry.Runs: sequences of calls, and the finite
--     map that they implement.
--   Reference.Model and Reference.Validate: the structures and functions of ulk_reference_model.c.
--   Composition: ulk_product_composition.c. Client: ulk_client.c, with the transport's function as the
--     parameter `call`.
-- A request goes from Client to Registry.Execute by the transport, and from there to an
-- owned copy, which accepts what the registry answers. The other modules below these hold
-- theorems; Examples modules apply them.
--
-- The operating system and the allocator are parameters: a `System` says how the calls of one
-- operation are answered, `realloc` at which sizes memory is given. A write takes a second System for
-- the calls after the commit, since these repeat calls on the same names.
--
-- Fuel. `grow` doubles a capacity on size_t for 64 rounds and yields no capacity after them; the guard
-- on SIZE_MAX / 2 ends it before. `digits` prints a number n with
-- n + 1 rounds, more than it has digits. `grow_capacity` doubles at most 16 times, from 8 or more, past
-- the 630 entries of the storage limit. `scan_effects` has as many rounds as the text has bytes, and
-- each round takes at least one.
--
-- Not modelled: the branches for Windows; path building and single system calls; the freeing of memory in the journal;
-- output pointers and contexts that are null, except where a comment says so; the error's message of
-- the journal, which the detail code determines. A current reference of the hand-off that lies inside
-- the refresh is not modelled either. A context has one heap, that of the allocator it was created
-- with. The views of a response of the kernel are the texts themselves, although that of the graph
-- ends when the context changes. A length that is below a capacity is added to without wrap-around.
-- A handler that changes its context is modelled by what it leaves, not during its call.
pub mod Client
pub mod Command
pub mod Composition
pub mod Memory
pub mod Operation
pub mod Prelude
pub mod Reference
pub mod Registry
pub mod Response
pub mod Session
pub mod Setup
pub mod View
