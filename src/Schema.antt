-- ===== src/Schema.antt =====
-- schema/bxp_capnp.rs, the copy of the generated code that the repository keeps. The build does not
-- use it (src/lib.rs includes the one that build.rs generates), and it is older than
-- schema/bxp.capnp: its `Action` has no `Ping`, and a status code is a bare u16. One module for
-- each of its parts: the enum `Action`, and the modules `request` and `response`, each with the
-- accessors of its `Reader` and its `Builder`.
pub mod Layout
pub mod Introspect
pub mod Node
pub mod Dynamic
pub mod Action
pub mod Request
pub mod Response
