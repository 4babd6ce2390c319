-- ===== src/Schema/Action/Value.antt =====
-- `impl From<Action> for dynamic_value::Reader` of schema/bxp_capnp.rs.
use bxp_core.Schema.Action.{Action, to_u16, encoded_node, get_annotation_types}
use bxp_core.Schema.Dynamic.{Dynamic}
use bxp_core.Schema.Layout.{Layout}

unfoldable pub into_value : {l : Layout} (d : Dynamic l) → Action → d.ValueReader
into_value d e = d.enum_value (to_u16 e) encoded_node (get_annotation_types d.types)
