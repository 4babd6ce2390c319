-- ===== src/Schema/Request/Reader.antt =====
-- `request::Reader` of schema/bxp_capnp.rs.
use bxp_core.Base.{ℕ, Bool, List, Option, none, Result, ok, and_then}
use bxp_core.Schema.Action.{Action, try_from}
use bxp_core.Schema.Dynamic.{Dynamic}
use bxp_core.Schema.Layout.{Layout, Word}
use bxp_core.Schema.Request.Private
use mathlib.Core.Bool.{not}

pub record Reader (l : Layout) : Type 0 where
  pub reader : l.StructReader

module _ (l : Layout) where
  -- `impl From<StructReader> for Reader`
  unfoldable pub from : l.StructReader → Reader l
  from reader = record { reader = reader }

  unfoldable pub get_from_pointer : l.PointerReader → Option (List Word) → Result ℕ (Reader l)
  get_from_pointer reader default = and_then (l.get_struct default reader) λ r. ok (from r)

  unfoldable pub into_internal_struct_reader : Reader l → l.StructReader
  into_internal_struct_reader self = self.reader

  unfoldable pub imbue : l.CapTable → Reader l → Reader l
  imbue cap_table self = record self { reader = l.imbue cap_table self.reader }

  unfoldable pub reborrow : Reader l → Reader l
  reborrow self = record self {}

  unfoldable pub total_size : Reader l → Result ℕ l.MessageSize
  total_size self = l.total_size self.reader

  unfoldable pub get_request_id : Reader l → ℕ
  get_request_id self = l.get_u32 0 self.reader

  unfoldable pub get_action : Reader l → Result ℕ Action
  get_action self = try_from (l.get_u16 2 self.reader)

  unfoldable pub get_resource_uri : Reader l → Result ℕ l.TextReader
  get_resource_uri self = l.get_text none (l.get_pointer_field 0 self.reader)

  unfoldable pub has_resource_uri : Reader l → Bool
  has_resource_uri self = not (l.is_null (l.get_pointer_field 0 self.reader))

-- `HasTypeId`
unfoldable pub type_id : ℕ
type_id = Private.type_id

module _ {l : Layout} (d : Dynamic l) where
  -- `impl From<Reader> for dynamic_value::Reader`
  unfoldable pub into_value : Reader l → d.ValueReader
  into_value reader = d.struct_reader reader.reader (d.struct_schema (Private.branded d))

  unfoldable pub fmt : Reader l → d.Formatter → Result ℕ (Unit {0}) × d.Formatter
  fmt self f = d.fmt (into_value self) f
