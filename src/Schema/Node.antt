-- ===== src/Schema/Node.antt =====
-- An independent reader of the schemas that are embedded in the generated code, by the encoding of
-- Cap'n Proto and by its schema of schemas (`Node`, `Field` and `Enumerant` of schema.capnp). A
-- number stands with its least byte first. A pointer is a word: bits 2 to 31 say how many words
-- lie between it and what it leads to, and for a list, bits 35 to 63 how many elements it has, or
-- how many words if they are structs, which a tag of the same form as a pointer precedes. These
-- schemas have no pointer that leads backwards.
pub mod Reading
use bxp_core.Base.{
  ℕ, ◌+◌, ◌*◌, ◌-◌, ◌/◌, List, [], ◌∷◌, ◌++◌, Option, none, some, ◌==◌, ltb, if◌then◌else◌, take,
  drop,
}
use bxp_core.Base.Str.{Str}
use bxp_core.Schema.Layout.{Word, StructSize}

abbrev little_endian : List ℕ → ℕ
little_endian [] = 0
little_endian (b ∷ bs) = b + 256 * little_endian bs

abbrev head : List Word → Word
head [] = []
head (w ∷ ws) = w

-- The number in `count` bytes from byte `from` of word `k`.
abbrev pub number : List Word → ℕ → ℕ → ℕ → ℕ
number node k from count = little_endian (take count (drop from (head (drop k node))))

-- Where the pointer in word `k` leads to.
abbrev pub target : List Word → ℕ → ℕ
target node k = k + 1 + number node k 0 4 / 4

abbrev bytes : List Word → List ℕ
bytes [] = []
bytes (w ∷ ws) = w ++ bytes ws

-- A text ends with a byte 0 that is no part of it. These texts are ASCII, so that a byte is a code
-- point.
abbrev pub text_at : List Word → ℕ → Str
text_at node k = take (number node k 4 4 / 8 - 1) (bytes (drop (target node k) node))

-- The list of structs that the pointer in word `k` leads to: how many, and where one starts.
abbrev pub count_at : List Word → ℕ → ℕ
count_at node k = number node (target node k) 0 4 / 4

abbrev pub element_at : List Word → ℕ → ℕ → ℕ
element_at node k i =
    let tag = target node k in tag + 1 + i * (number node tag 4 2 + number node tag 6 2)

-- A node has six words of data from word 1 on, and then six pointers, of which the fourth leads to
-- the fields of a struct and to the enumerants of an enum.
abbrev pub node_id : List Word → ℕ
node_id node = number node 1 0 8

abbrev pub struct_size_of : List Word → StructSize
struct_size_of node = record { data_words = number node 2 6 2; pointers = number node 4 0 2 }

abbrev members : ℕ
members = 10

pub data Kind : Type 0 where
  kind_u16 kind_u32 kind_text : Kind
  kind_enum : ℕ → Kind
  kind_other : ℕ → Kind

-- A `Type` is a number for its kind, and the id of an enum in the second word.
abbrev kind_of : ℕ → ℕ → Kind
kind_of code id =
    if code == 7
    then Kind.kind_u16
    else if code == 8
    then Kind.kind_u32
    else if code == 12
    then Kind.kind_text
    else if code == 15
    then Kind.kind_enum id
    else Kind.kind_other code

abbrev kind_at : List Word → ℕ → Kind
kind_at node k = kind_of (number node k 0 2) (number node (k + 1) 0 8)

pub record Field : Type 0 where
  pub name : Str
  pub offset : ℕ
  pub kind : Kind

-- A `Field` has three words of data, with the offset of its slot from byte 4 on, and then four
-- pointers, of which the first leads to the name and the third to the type.
abbrev pub field_count : List Word → ℕ
field_count node = count_at node members

abbrev field_from : List Word → ℕ → Field
field_from node k = record {
  name = text_at node (k + 3);
  offset = number node k 4 4;
  kind = kind_at node (target node (k + 5));
}

abbrev pub field_at : List Word → ℕ → Option Field
field_at node i =
    if ltb i (field_count node) then some (field_from node (element_at node members i)) else none

-- An `Enumerant` has one word of data, and then two pointers, of which the first leads to the name.
abbrev pub enumerant_count : List Word → ℕ
enumerant_count node = count_at node members

abbrev pub enumerant_at : List Word → ℕ → Option Str
enumerant_at node i =
    if ltb i (enumerant_count node)
    then some (text_at node (element_at node members i + 1))
    else none
