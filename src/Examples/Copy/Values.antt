-- ===== src/Examples/Copy/Values.antt =====
-- Examples for reading a request through its schema, in memory.
use bxp_core.Base.{ℕ, ◌≡◌, refl, some, none, Option, List, ok, arith}
use bxp_core.Base.Str.{Str, codes}
use bxp_core.Examples.Copy.{Fields, fields}
use bxp_core.Schema.Action
use bxp_core.Schema.Dynamic.{Dynamic, IsDynamic}
use bxp_core.Schema.Layout.{Word}
use bxp_core.Schema.Node.Reading.{Value, read_at}
use bxp_core.Schema.Request.Builder
use bxp_core.Schema.Request.Reader
use bxp_core.Schema.Request.Values.{getters-into_value}

-- A value is an enumerant, or a struct with its schema.
data Shown : Type 0 where
  enumerant : ℕ → Shown
  structure : Fields → List Word → Shown

abbrev get : ℕ → Shown → Option (Str × Value fields)
get i (Shown.enumerant n) = none
get i (Shown.structure r node) = read_at fields node i r

abbrev shown : Dynamic fields
shown = record {
  types = record { Introspected = ℕ; of_u16 = 1; of_u32 = 2; of_text = 3; of_enum = λ s a. 4 };
  Arena = List Word;
  Raw = List Word;
  arena = λ node. node;
  raw = λ node nonunion by_discriminant by_name. node;
  StructSchema = List Word;
  of_struct = λ b. 5;
  struct_schema = λ b. b.generic;
  ValueReader = Shown;
  ValueBuilder = Shown;
  enum_value = λ n s a. Shown.enumerant n;
  struct_reader = Shown.structure;
  struct_builder = Shown.structure;
  into_reader = λ v. v;
  get = get;
  Formatter = ℕ;
  fmt = λ v f. (ok tt, f);
}

shown-IsDynamic : IsDynamic shown
shown-IsDynamic = record {
  get-struct = λ node nonunion by_discriminant by_name types annotations r i h. refl;
  struct_builder-reader = λ b s. refl;
}

-- A request in memory: the id 9, the action 1, and a URI.
abbrev pushed : Reader.Reader fields
pushed = record {
  reader = record {
    wide = λ i. 9;
    narrow = λ i. 1;
    texts = λ i. some (codes "a");
    space = Builder.struct_size;
  };
}

abbrev pushing : Builder.Builder fields
pushing = record { builder = pushed.reader }

getters-into_value_example :
    (shown.get 0 (Reader.into_value shown pushed)
      ≡ some (codes "requestId", Value.number (Reader.get_request_id fields pushed)))
    × ((n : ℕ) × (shown.get 1 (Reader.into_value shown pushed)
          ≡ some (codes "action", Value.enumerant Action.type_id n))
        × (Reader.get_action fields pushed ≡ Action.try_from n))
    × (shown.get 2 (Reader.into_value shown pushed)
        ≡ some (codes "resourceUri", Value.text (Reader.get_resource_uri fields pushed)))
    × (shown.get 7 (Reader.into_value shown pushed) ≡ none)
    × (shown.into_reader (Builder.into_value shown pushing)
        ≡ Reader.into_value shown (Builder.into_reader fields pushing))
getters-into_value_example = getters-into_value shown-IsDynamic pushed pushing 7 (omega arith)
