-- ===== src/Schema/Dynamic.antt =====
-- What schema/bxp_capnp.rs calls of `capnp::schema`, `capnp::dynamic_value` and
-- `capnp::dynamic_struct`, which are not in the repository: values that are read through a schema
-- at run time.
use bxp_core.Base.{ℕ, ◌≡◌, List, Option, Result}
use bxp_core.Base.Str.{Str}
use bxp_core.Schema.Introspect.{Introspect}
use bxp_core.Schema.Layout.{Layout, Word}
use bxp_core.Schema.Node.Reading.{Value, read_at, type_at}

-- `RawBrandedStructSchema`
pub record Branded (Raw Introspected : Type 0) : Type 0 where
  pub generic : Raw
  -- Where these return none, the call panics.
  pub field_types : ℕ → Option Introspected
  pub annotation_types : Option ℕ → ℕ → Option Introspected

pub record Dynamic (l : Layout) : Type 1 where
  pub types : Introspect
  -- `GeneratedCodeArena` and `RawStructSchema`, and their `new`.
  pub Arena : Type 0
  pub Raw : Type 0
  pub arena : List Word → Arena
  pub raw : Arena → List ℕ → List ℕ → List ℕ → Raw
  -- `TypeVariant::Struct`, and `StructSchema::new`.
  pub StructSchema : Type 0
  pub of_struct : Branded Raw types.Introspected → types.Introspected
  pub struct_schema : Branded Raw types.Introspected → StructSchema
  -- `dynamic_value::Reader` and `dynamic_value::Builder`, as they are made of an enum or a struct.
  pub ValueReader : Type 0
  pub ValueBuilder : Type 0
  pub enum_value : ℕ → List Word → (Option ℕ → ℕ → Option types.Introspected) → ValueReader
  pub struct_reader : l.StructReader → StructSchema → ValueReader
  pub struct_builder : l.StructBuilder → StructSchema → ValueBuilder
  pub into_reader : ValueBuilder → ValueReader
  -- The name and the value of field `i` of a struct.
  pub get : ℕ → ValueReader → Option (Str × Value l)
  -- `Debug`
  pub Formatter : Type 0
  pub fmt : ValueReader → Formatter → Result ℕ (Unit {0}) × Formatter

pub record IsDynamic {l : Layout} (d : Dynamic l) : Type 0 where
  -- With the schema `node` and with field types that agree with it, a field is read as the schema
  -- says.
  pub get-struct :
      (node : List Word) (nonunion by_discriminant by_name : List ℕ)
      (field_types : ℕ → Option d.types.Introspected)
      (annotation_types : Option ℕ → ℕ → Option d.types.Introspected) (r : l.StructReader) (i : ℕ)
      → ((j : ℕ) → field_types j ≡ type_at d.types node j)
      → d.get i (
          d.struct_reader r (
            d.struct_schema (record {
              generic = d.raw (d.arena node) nonunion by_discriminant by_name;
              field_types = field_types;
              annotation_types = annotation_types;
            })))
        ≡ read_at l node i r
  pub struct_builder-reader :
      (b : l.StructBuilder) (s : d.StructSchema)
      → d.into_reader (d.struct_builder b s) ≡ d.struct_reader (l.as_reader b) s
