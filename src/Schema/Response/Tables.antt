-- ===== src/Schema/Response/Tables.antt =====
-- The accessors and the tables of `response` against the schema that is embedded in it.
use bxp_core.Base.{ℕ, zero, suc, ◌≤◌, ◌≡◌, refl, true, some, none, arith}
use bxp_core.Base.Str.{codes}
use bxp_core.Schema.Introspect.{Introspect}
use bxp_core.Schema.Layout.{Layout}
use bxp_core.Schema.Node.{Field, Kind, field_at, field_count, node_id, struct_size_of}
use bxp_core.Schema.Node.Reading.{Value, read_at, type_at, by_name, field_at-none}
use bxp_core.Schema.Response.Builder
use bxp_core.Schema.Response.Private
use bxp_core.Schema.Response.Reader

abbrev request_id_field : Field
request_id_field = record { name = codes "requestId"; offset = 0; kind = Kind.kind_u32 }

abbrev status_code_field : Field
status_code_field = record { name = codes "statusCode"; offset = 2; kind = Kind.kind_u16 }

node_fields :
    (field_at Private.encoded_node 0 ≡ some request_id_field)
    × (field_at Private.encoded_node 1 ≡ some status_code_field)
    × (field_count Private.encoded_node ≡ 2)
unfolding Private.encoded_node
node_fields = (refl, refl, refl)

no_field : (i : ℕ) → 2 ≤ i → field_at Private.encoded_node i ≡ none
no_field i h =
    let (_, _, two) = node_fields in field_at-none Private.encoded_node i (omega (arith, two))

node_header :
    (node_id Private.encoded_node ≡ Private.type_id)
    × (struct_size_of Private.encoded_node ≡ Builder.struct_size)
    × (by_name Private.encoded_node Private.members_by_name ≡ true)
unfolding Private.encoded_node Private.type_id
node_header = (refl, refl, refl)

-- The accessors of a response are what the embedded schema says: the schema has the id `TYPE_ID` and
-- the size `STRUCT_SIZE`, `MEMBERS_BY_NAME` lists its fields in the order of their names, and for
-- every reader, the fields of the schema are `requestId` and `statusCode` and no others, and to
-- read each at the slot and with the type that the schema gives it is what its getter does.
pub getters-read_at :
    (l : Layout) (r : Reader.Reader l) (i : ℕ)
    → 2 ≤ i
    → (node_id Private.encoded_node ≡ Private.type_id)
      × (struct_size_of Private.encoded_node ≡ Builder.struct_size)
      × (by_name Private.encoded_node Private.members_by_name ≡ true)
      × (read_at l Private.encoded_node 0 r.reader
          ≡ some (codes "requestId", Value.number (Reader.get_request_id l r)))
      × (read_at l Private.encoded_node 1 r.reader
          ≡ some (codes "statusCode", Value.number (Reader.get_status_code l r)))
      × (read_at l Private.encoded_node i r.reader ≡ none)
unfolding Reader.get_request_id Reader.get_status_code
getters-read_at l r i h =
    let (f0, f1, two) = node_fields in
    (node_header.0, node_header.1, node_header.2, rw f0 refl, rw f1 refl, rw (no_field i h) refl)

-- At every index, `get_field_types` returns the type that the embedded schema gives to the field
-- with that index, and panics exactly where the schema has no field.
pub get_field_types-type_at :
    (t : Introspect) (i : ℕ) → Private.get_field_types t i ≡ type_at t Private.encoded_node i
unfolding Private.get_field_types
get_field_types-type_at t zero = let (f0, _, _) = node_fields in rw f0 refl
get_field_types-type_at t (suc zero) = let (_, f1, _) = node_fields in rw f1 refl
get_field_types-type_at t (suc (suc i)) = rw (no_field (suc (suc i)) (omega arith)) (ground arith)
