-- ===== src/Schema/Response/Owned.antt =====
-- `response::Owned` and `response::Pipeline` of schema/bxp_capnp.rs, which have no state of their own.
use bxp_core.Schema.Dynamic.{Dynamic}
use bxp_core.Schema.Layout.{Layout}
use bxp_core.Schema.Response.Private

unfoldable pub introspect : {l : Layout} (d : Dynamic l) → d.types.Introspected
introspect d = d.of_struct (Private.branded d)

-- Around an `any_pointer::Pipeline`.
pub record Pipeline (Typeless : Type 0) : Type 0 where
  pub _typeless : Typeless

unfoldable pub new : {Typeless : Type 0} → Typeless → Pipeline Typeless
new typeless = record { _typeless = typeless }
