-- ===== src/Schema/Request.antt =====
-- The module `request` of schema/bxp_capnp.rs.
pub mod Reader
pub mod Builder
pub mod Private
pub mod Owned
pub mod Values
pub mod Fields
pub mod Tables
