-- ===== src/Schema/Introspect.antt =====
-- What schema/bxp_capnp.rs calls of `capnp::introspect`, which is not in the repository: the types
-- that a field can have, where an enum is known by the schema that was generated for it.
use bxp_core.Base.{ℕ, List, Option}
use bxp_core.Schema.Layout.{Word}

pub record Introspect : Type 1 where
  pub Introspected : Type 0
  pub of_u16 : Introspected
  pub of_u32 : Introspected
  pub of_text : Introspected
  -- `RawEnumSchema`: the schema, and the types of the annotations.
  pub of_enum : List Word → (Option ℕ → ℕ → Option Introspected) → Introspected
