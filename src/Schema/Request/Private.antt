-- ===== src/Schema/Request/Private.antt =====
-- `request::_private` of schema/bxp_capnp.rs: the schema of the struct as a message of Cap'n Proto,
-- and the tables that go with it.
use bxp_core.Base.{ℕ, List, [], ◌∷◌, Option, none, some, ◌==◌, if◌then◌else◌}
use bxp_core.Schema.Action
use bxp_core.Schema.Dynamic.{Branded, Dynamic}
use bxp_core.Schema.Introspect.{Introspect}
use bxp_core.Schema.Layout.{Layout, Word, word}

-- `ENCODED_NODE`
unfoldable pub encoded_node : List Word
encoded_node =
    (word 0 0 0 0 6 0 6 0)
    ∷ (word 46 231 76 10 206 49 245 230)
    ∷ (word 17 0 0 0 1 0 1 0)
    ∷ (word 144 120 86 52 18 239 205 171)
    ∷ (word 1 0 7 0 0 0 0 0)
    ∷ (word 0 0 0 0 0 0 0 0)
    ∷ (word 69 0 0 0 160 0 0 0)
    ∷ (word 21 0 0 0 202 0 0 0)
    ∷ (word 33 0 0 0 7 0 0 0)
    ∷ (word 0 0 0 0 0 0 0 0)
    ∷ (word 29 0 0 0 175 0 0 0)
    ∷ (word 0 0 0 0 0 0 0 0)
    ∷ (word 0 0 0 0 0 0 0 0)
    ∷ (word 115 99 104 101 109 97 47 98)
    ∷ (word 120 112 46 99 97 112 110 112)
    ∷ (word 58 82 101 113 117 101 115 116)
    ∷ (word 0 0 0 0 0 0 0 0)
    ∷ (word 0 0 0 0 1 0 1 0)
    ∷ (word 12 0 0 0 3 0 4 0)
    ∷ (word 0 0 0 0 0 0 0 0)
    ∷ (word 0 0 1 0 0 0 0 0)
    ∷ (word 0 0 0 0 0 0 0 0)
    ∷ (word 69 0 0 0 82 0 0 0)
    ∷ (word 0 0 0 0 0 0 0 0)
    ∷ (word 68 0 0 0 3 0 1 0)
    ∷ (word 80 0 0 0 2 0 1 0)
    ∷ (word 1 0 0 0 2 0 0 0)
    ∷ (word 0 0 1 0 1 0 0 0)
    ∷ (word 0 0 0 0 0 0 0 0)
    ∷ (word 77 0 0 0 58 0 0 0)
    ∷ (word 0 0 0 0 0 0 0 0)
    ∷ (word 72 0 0 0 3 0 1 0)
    ∷ (word 84 0 0 0 2 0 1 0)
    ∷ (word 2 0 0 0 0 0 0 0)
    ∷ (word 0 0 1 0 2 0 0 0)
    ∷ (word 0 0 0 0 0 0 0 0)
    ∷ (word 81 0 0 0 98 0 0 0)
    ∷ (word 0 0 0 0 0 0 0 0)
    ∷ (word 80 0 0 0 3 0 1 0)
    ∷ (word 92 0 0 0 2 0 1 0)
    ∷ (word 114 101 113 117 101 115 116 73)
    ∷ (word 100 0 0 0 0 0 0 0)
    ∷ (word 8 0 0 0 0 0 0 0)
    ∷ (word 0 0 0 0 0 0 0 0)
    ∷ (word 0 0 0 0 0 0 0 0)
    ∷ (word 0 0 0 0 0 0 0 0)
    ∷ (word 8 0 0 0 0 0 0 0)
    ∷ (word 0 0 0 0 0 0 0 0)
    ∷ (word 0 0 0 0 0 0 0 0)
    ∷ (word 97 99 116 105 111 110 0 0)
    ∷ (word 15 0 0 0 0 0 0 0)
    ∷ (word 169 239 42 44 136 15 126 209)
    ∷ (word 0 0 0 0 0 0 0 0)
    ∷ (word 0 0 0 0 0 0 0 0)
    ∷ (word 15 0 0 0 0 0 0 0)
    ∷ (word 0 0 0 0 0 0 0 0)
    ∷ (word 0 0 0 0 0 0 0 0)
    ∷ (word 114 101 115 111 117 114 99 101)
    ∷ (word 85 114 105 0 0 0 0 0)
    ∷ (word 12 0 0 0 0 0 0 0)
    ∷ (word 0 0 0 0 0 0 0 0)
    ∷ (word 0 0 0 0 0 0 0 0)
    ∷ (word 0 0 0 0 0 0 0 0)
    ∷ (word 12 0 0 0 0 0 0 0)
    ∷ (word 0 0 0 0 0 0 0 0)
    ∷ (word 0 0 0 0 0 0 0 0)
    ∷ []

-- The call panics where this returns none.
unfoldable pub get_field_types : (t : Introspect) → ℕ → Option t.Introspected
get_field_types t index =
    if index == 0
    then some t.of_u32
    else if index == 1
    then some (Action.introspect t)
    else if index == 2
    then some t.of_text
    else none

-- `NONUNION_MEMBERS`, `MEMBERS_BY_DISCRIMINANT`, `MEMBERS_BY_NAME`
abbrev pub nonunion_members : List ℕ
nonunion_members = 0 ∷ 1 ∷ 2 ∷ []

abbrev pub members_by_discriminant : List ℕ
members_by_discriminant = []

abbrev pub members_by_name : List ℕ
members_by_name = 1 ∷ 0 ∷ 2 ∷ []

-- `TYPE_ID`, 0xe6f5_31ce_0a4c_e72e
unfoldable pub type_id : ℕ
type_id = 16642262759023372078

-- It panics, since the struct has no annotations.
unfoldable pub get_annotation_types : (t : Introspect) → Option ℕ → ℕ → Option t.Introspected
get_annotation_types t child_index index = none

module _ {l : Layout} (d : Dynamic l) where
  -- `ARENA` and `RAW_SCHEMA`
  unfoldable pub arena : d.Arena
  arena = d.arena encoded_node

  unfoldable pub raw_schema : d.Raw
  raw_schema = d.raw arena nonunion_members members_by_discriminant members_by_name

  -- The `RawBrandedStructSchema` of the conversions below.
  unfoldable pub branded : Branded d.Raw d.types.Introspected
  branded = record {
    generic = raw_schema;
    field_types = get_field_types d.types;
    annotation_types = get_annotation_types d.types;
  }
