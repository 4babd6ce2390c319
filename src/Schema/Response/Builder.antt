-- ===== src/Schema/Response/Builder.antt =====
-- `response::Builder` of schema/bxp_capnp.rs.
use bxp_core.Base.{ℕ, Bool, List, Option, Result, ok, and_then}
use bxp_core.Schema.Dynamic.{Dynamic}
use bxp_core.Schema.Layout.{Layout, StructSize, Word}
use bxp_core.Schema.Response.Private
use bxp_core.Schema.Response.Reader

pub record Builder (l : Layout) : Type 0 where
  pub builder : l.StructBuilder

-- `HasStructSize::STRUCT_SIZE`
abbrev pub struct_size : StructSize
struct_size = record { data_words = 1; pointers = 0 }

module _ (l : Layout) where
  -- `impl From<StructBuilder> for Builder`
  unfoldable pub from : l.StructBuilder → Builder l
  from builder = record { builder = builder }

  unfoldable pub imbue_mut : l.CapTable → Builder l → Builder l
  imbue_mut cap_table self = record self { builder = l.imbue_mut cap_table self.builder }

  unfoldable pub init_pointer : l.PointerBuilder → ℕ → Builder l
  init_pointer builder _size = from (l.init_struct struct_size builder)

  unfoldable pub get_from_pointer : l.PointerBuilder → Option (List Word) → Result ℕ (Builder l)
  get_from_pointer builder default =
      and_then (l.builder_struct struct_size default builder) λ b. ok (from b)

  -- The pointer after the call is the second component.
  unfoldable pub set_pointer_builder :
      l.PointerBuilder → Reader.Reader l → Bool → Result ℕ (Unit {0}) × l.PointerBuilder
  set_pointer_builder pointer value canonicalize = l.set_struct value.reader canonicalize pointer

  unfoldable pub into_reader : Builder l → Reader.Reader l
  into_reader self = Reader.from l (l.as_reader self.builder)

  unfoldable pub reborrow : Builder l → Builder l
  reborrow self = record { builder = self.builder }

  unfoldable pub reborrow_as_reader : Builder l → Reader.Reader l
  reborrow_as_reader self = Reader.from l (l.as_reader self.builder)

  unfoldable pub total_size : Builder l → Result ℕ l.MessageSize
  total_size self = l.total_size (l.as_reader self.builder)

  unfoldable pub get_request_id : Builder l → ℕ
  get_request_id self = l.builder_u32 0 self.builder

  unfoldable pub set_request_id : ℕ → Builder l → Builder l
  set_request_id value self = record self { builder = l.set_u32 0 value self.builder }

  unfoldable pub get_status_code : Builder l → ℕ
  get_status_code self = l.builder_u16 2 self.builder

  unfoldable pub set_status_code : ℕ → Builder l → Builder l
  set_status_code value self = record self { builder = l.set_u16 2 value self.builder }

-- `HasTypeId`
unfoldable pub type_id : ℕ
type_id = Private.type_id

module _ {l : Layout} (d : Dynamic l) where
  -- `impl From<Builder> for dynamic_value::Builder`
  unfoldable pub into_value : Builder l → d.ValueBuilder
  into_value builder = d.struct_builder builder.builder (d.struct_schema (Private.branded d))
