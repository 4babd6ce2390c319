-- ===== src/Schema/Action.antt =====
-- The enum `Action` of schema/bxp_capnp.rs.
pub mod Codes
pub mod Tables
pub mod Value
use bxp_core.Base.{ℕ, List, [], ◌∷◌, Option, none, Result, ok, err, ◌==◌, if◌then◌else◌}
use bxp_core.Schema.Introspect.{Introspect}
use bxp_core.Schema.Layout.{Word, word}

pub data Action : Type 0 where
  fetch push : Action

-- `Action as u16`
unfoldable pub to_u16 : Action → ℕ
to_u16 Action.fetch = 0
to_u16 Action.push = 1

-- `impl TryFrom<u16> for Action`, whose error is `NotInSchema(n)`.
unfoldable pub try_from : ℕ → Result ℕ Action
try_from value =
    if value == 0 then ok Action.fetch else if value == 1 then ok Action.push else err value

-- `HasTypeId::TYPE_ID`, 0xd17e_0f88_2c2a_efa9
unfoldable pub type_id : ℕ
type_id = 15095520078523461545

-- `action::ENCODED_NODE`, the schema of the enum as a message of Cap'n Proto.
unfoldable pub encoded_node : List Word
encoded_node =
    (word 0 0 0 0 6 0 6 0)
    ∷ (word 169 239 42 44 136 15 126 209)
    ∷ (word 17 0 0 0 2 0 0 0)
    ∷ (word 144 120 86 52 18 239 205 171)
    ∷ (word 0 0 0 0 0 0 0 0)
    ∷ (word 0 0 0 0 0 0 0 0)
    ∷ (word 24 0 0 0 65 0 0 0)
    ∷ (word 21 0 0 0 194 0 0 0)
    ∷ (word 29 0 0 0 7 0 0 0)
    ∷ (word 0 0 0 0 0 0 0 0)
    ∷ (word 25 0 0 0 55 0 0 0)
    ∷ (word 0 0 0 0 0 0 0 0)
    ∷ (word 0 0 0 0 0 0 0 0)
    ∷ (word 115 99 104 101 109 97 47 98)
    ∷ (word 120 112 46 99 97 112 110 112)
    ∷ (word 58 65 99 116 105 111 110 0)
    ∷ (word 0 0 0 0 1 0 1 0)
    ∷ (word 8 0 0 0 1 0 2 0)
    ∷ (word 0 0 0 0 0 0 0 0)
    ∷ (word 17 0 0 0 50 0 0 0)
    ∷ (word 0 0 0 0 0 0 0 0)
    ∷ (word 1 0 0 0 0 0 0 0)
    ∷ (word 9 0 0 0 42 0 0 0)
    ∷ (word 0 0 0 0 0 0 0 0)
    ∷ (word 102 101 116 99 104 0 0 0)
    ∷ (word 112 117 115 104 0 0 0 0)
    ∷ []

-- `action::get_annotation_types`, which panics, since the enum has no annotations.
unfoldable pub get_annotation_types : (t : Introspect) → Option ℕ → ℕ → Option t.Introspected
get_annotation_types t child_index index = none

unfoldable pub introspect : (t : Introspect) → t.Introspected
introspect t = t.of_enum encoded_node (get_annotation_types t)
