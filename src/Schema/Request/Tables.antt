-- ===== src/Schema/Request/Tables.antt =====
-- The accessors and the tables of `request` against the schema that is embedded in it.
use bxp_core.Base.{ℕ, zero, suc, ◌<◌, ◌≤◌, ◌≡◌, ◌⊎◌, inl, inr, refl, true, sym, some, none, arith}
use bxp_core.Base.Str.{codes}
use bxp_core.Schema.Action
use bxp_core.Schema.Introspect.{Introspect}
use bxp_core.Schema.Layout.{Layout}
use bxp_core.Schema.Node.{Field, Kind, field_at, field_count, node_id, struct_size_of}
use bxp_core.Schema.Node.Reading.{
  Value, read_at, type_at, start, stop, section_stop, by_name, field_at-none, some_unique,
  some_absent,
}
use bxp_core.Schema.Request.Builder
use bxp_core.Schema.Request.Private
use bxp_core.Schema.Request.Reader

abbrev pub request_id : Field
request_id = record { name = codes "requestId"; offset = 0; kind = Kind.kind_u32 }

abbrev pub action : Field
action = record { name = codes "action"; offset = 2; kind = Kind.kind_enum Action.type_id }

abbrev resource_uri : Field
resource_uri = record { name = codes "resourceUri"; offset = 0; kind = Kind.kind_text }

pub node_fields :
    (field_at Private.encoded_node 0 ≡ some request_id)
    × (field_at Private.encoded_node 1 ≡ some action)
    × (field_at Private.encoded_node 2 ≡ some resource_uri)
    × (field_count Private.encoded_node ≡ 3)
unfolding Private.encoded_node Action.type_id
node_fields = (refl, refl, refl, refl)

no_field : (i : ℕ) → 3 ≤ i → field_at Private.encoded_node i ≡ none
no_field i h =
    let (_, _, _, three) = node_fields in
    field_at-none Private.encoded_node i (omega (arith, three))

node_header :
    (node_id Private.encoded_node ≡ Private.type_id)
    × (struct_size_of Private.encoded_node ≡ Builder.struct_size)
    × (by_name Private.encoded_node Private.members_by_name ≡ true)
unfolding Private.encoded_node Private.type_id
node_header = (refl, refl, refl)

-- The accessors of a request are what the embedded schema says: the schema has the id `TYPE_ID` and
-- the size `STRUCT_SIZE`, `MEMBERS_BY_NAME` lists its fields in the order of their names, and for
-- every reader, the fields of the schema are `requestId`, `action` and `resourceUri` and no others, and to read each at the slot
-- and with the type that the schema gives it is what its getter does; the number of the action
-- is converted as `get_action` does.
pub getters-read_at :
    (l : Layout) (r : Reader.Reader l) (i : ℕ)
    → 3 ≤ i
    → (node_id Private.encoded_node ≡ Private.type_id)
      × (struct_size_of Private.encoded_node ≡ Builder.struct_size)
      × (by_name Private.encoded_node Private.members_by_name ≡ true)
      × (read_at l Private.encoded_node 0 r.reader
          ≡ some (codes "requestId", Value.number (Reader.get_request_id l r)))
      × ((n : ℕ) × (read_at l Private.encoded_node 1 r.reader
            ≡ some (codes "action", Value.enumerant Action.type_id n))
          × (Reader.get_action l r ≡ Action.try_from n))
      × (read_at l Private.encoded_node 2 r.reader
          ≡ some (codes "resourceUri", Value.text (Reader.get_resource_uri l r)))
      × (read_at l Private.encoded_node i r.reader ≡ none)
unfolding Reader.get_request_id Reader.get_action Reader.get_resource_uri
getters-read_at l r i h =
    let (f0, f1, f2, three) = node_fields in
    (
      node_header.0,
      node_header.1,
      node_header.2,
      rw f0 refl,
      (l.get_u16 2 r.reader, rw f1 refl, refl),
      rw f2 refl,
      rw (no_field i h) refl,
    )

-- At every index, `get_field_types` returns the type that the embedded schema gives to the field
-- with that index, and panics exactly where the schema has no field.
pub get_field_types-type_at :
    (t : Introspect) (i : ℕ) → Private.get_field_types t i ≡ type_at t Private.encoded_node i
unfolding Private.get_field_types Action.type_id
get_field_types-type_at t zero = let (f0, _, _, _) = node_fields in rw f0 refl
get_field_types-type_at t (suc zero) = let (_, f1, _, _) = node_fields in rw f1 refl
get_field_types-type_at t (suc (suc zero)) = let (_, _, f2, _) = node_fields in rw f2 refl
get_field_types-type_at t (suc (suc (suc i))) =
    rw (no_field (suc (suc (suc i))) (omega arith)) (ground arith)

-- The bytes that two fields of the schema take.
abbrev Apart : Field → Field → Type 0
Apart f g =
    (stop Builder.struct_size f ≤ start Builder.struct_size g)
    ⊎ (stop Builder.struct_size g ≤ start Builder.struct_size f)

abbrev IsField : ℕ → Field → Type 0
IsField i f =
    ((i ≡ 0) × (request_id ≡ f)) ⊎ ((i ≡ 1) × (action ≡ f)) ⊎ ((i ≡ 2) × (resource_uri ≡ f))

node_cases : (i : ℕ) (f : Field) → field_at Private.encoded_node i ≡ some f → IsField i f
node_cases zero f h = let (f0, _, _, _) = node_fields in inl (refl, some_unique f0 h)
node_cases (suc zero) f h = let (_, f1, _, _) = node_fields in inr (inl (refl, some_unique f1 h))
node_cases (suc (suc zero)) f h =
    let (_, _, f2, _) = node_fields in inr (inr (refl, some_unique f2 h))
node_cases (suc (suc (suc i))) f h =
    absurd (some_absent (no_field (suc (suc (suc i))) (omega arith)) h)

inside :
    (i : ℕ) (f : Field)
    → IsField i f
    → stop Builder.struct_size f ≤ section_stop Builder.struct_size f
inside i f (inl (a, e)) = rw (sym e) (omega arith)
inside i f (inr (inl (a, e))) = rw (sym e) (omega arith)
inside i f (inr (inr (a, e))) = rw (sym e) (omega arith)

fields-Apart : (i j : ℕ) (f g : Field) → i < j → IsField i f → IsField j g → Apart f g
fields-Apart i j f g less (inl (a, e)) (inl (b, d)) = absurd (omega arith)
fields-Apart i j f g less (inl (a, e)) (inr (inl (b, d))) = rw (sym e, sym d) (inl (omega arith))
fields-Apart i j f g less (inl (a, e)) (inr (inr (b, d))) = rw (sym e, sym d) (inl (omega arith))
fields-Apart i j f g less (inr (inl (a, e))) (inr (inr (b, d))) =
    rw (sym e, sym d) (inl (omega arith))
fields-Apart i j f g less (inr (inl (a, e))) (inl (b, d)) = absurd (omega arith)
fields-Apart i j f g less (inr (inl (a, e))) (inr (inl (b, d))) = absurd (omega arith)
fields-Apart i j f g less (inr (inr (a, e))) (inl (b, d)) = absurd (omega arith)
fields-Apart i j f g less (inr (inr (a, e))) (inr (inl (b, d))) = absurd (omega arith)
fields-Apart i j f g less (inr (inr (a, e))) (inr (inr (b, d))) = absurd (omega arith)

-- The slots that the embedded schema gives to the fields fit into the struct that the builder
-- allocates: the schema has the size `STRUCT_SIZE`, the bytes of every field end within the section
-- for data or for pointers that it belongs to, and two fields have no byte in common.
fields_fit :
    (i j : ℕ) (f g : Field)
    → i < j
    → field_at Private.encoded_node i ≡ some f
    → field_at Private.encoded_node j ≡ some g
    → (struct_size_of Private.encoded_node ≡ Builder.struct_size)
      × (stop Builder.struct_size f ≤ section_stop Builder.struct_size f)
      × (stop Builder.struct_size g ≤ section_stop Builder.struct_size g)
      × Apart f g
unfolding Private.encoded_node
fields_fit i j f g less at_i at_j =
    let is_f = node_cases i f at_i in
    let is_g = node_cases j g at_j in
    (refl, inside i f is_f, inside j g is_g, fields-Apart i j f g less is_f is_g)
