-- ===== src/Schema/Request/Values.antt =====
-- What a request shows when it is read through its schema at run time.
use bxp_core.Base.{ℕ, ◌≤◌, ◌≡◌, ◌∙◌, some, none}
use bxp_core.Base.Str.{codes}
use bxp_core.Schema.Action
use bxp_core.Schema.Dynamic.{Dynamic, IsDynamic}
use bxp_core.Schema.Layout.{Layout}
use bxp_core.Schema.Node.Reading.{Value, read_at}
use bxp_core.Schema.Request.Builder
use bxp_core.Schema.Request.Private
use bxp_core.Schema.Request.Reader
use bxp_core.Schema.Request.Tables.{getters-read_at, get_field_types-type_at}

module _ {l : Layout} {d : Dynamic l} (laws : IsDynamic d) where
  get-into_value :
      (r : Reader.Reader l) (i : ℕ)
      → d.get i (Reader.into_value d r) ≡ read_at l Private.encoded_node i r.reader
  unfolding Reader.into_value Private.branded Private.raw_schema Private.arena
  get-into_value r i =
      laws.get-struct Private.encoded_node _ _ _ _ _ r.reader i (get_field_types-type_at d.types)

  -- A request that is read through the schema in the generated code shows the same as its getters:
  -- the fields `requestId`, `action` and `resourceUri` with the values of the getters, where the
  -- number of the action is converted as `get_action` does, and no other field; and a builder
  -- shows the same as its reader.
  pub getters-into_value :
      (r : Reader.Reader l) (b : Builder.Builder l) (i : ℕ)
      → 3 ≤ i
      → (d.get 0 (Reader.into_value d r)
          ≡ some (codes "requestId", Value.number (Reader.get_request_id l r)))
        × ((n : ℕ) × (d.get 1 (Reader.into_value d r)
              ≡ some (codes "action", Value.enumerant Action.type_id n))
            × (Reader.get_action l r ≡ Action.try_from n))
        × (d.get 2 (Reader.into_value d r)
            ≡ some (codes "resourceUri", Value.text (Reader.get_resource_uri l r)))
        × (d.get i (Reader.into_value d r) ≡ none)
        × (d.into_reader (Builder.into_value d b) ≡ Reader.into_value d (Builder.into_reader l b))
  unfolding Builder.into_value Reader.into_value Builder.into_reader Reader.from
  getters-into_value r b i h =
      let (_, _, _, id, (n, action, converted), uri, others) = getters-read_at l r i h in
      (
        get-into_value r 0 ∙ id,
        (n, get-into_value r 1 ∙ action, converted),
        get-into_value r 2 ∙ uri,
        get-into_value r i ∙ others,
        laws.struct_builder-reader b.builder _,
      )
