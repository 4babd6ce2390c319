-- ===== src/Schema/Request/Fields.antt =====
-- The accessors of `request::Reader` and `request::Builder` against each other.
use bxp_core.Base.{
  ℕ, ◌≡◌, refl, ◌∙◌, sym, ok, ap, Bool, true, false, Option, List, and_then-ok, arith,
}
use bxp_core.Base.Str.{Str}
use bxp_core.Schema.Action.{Action, try_from}
use bxp_core.Schema.Layout.{Layout, IsLayout, AtLeast, Copies, Word}
use bxp_core.Schema.Request.Builder
use bxp_core.Schema.Request.Reader
use mathlib.Core.Bool.{not}

-- What the getters of a reader return for a request with a URI.
pub record IsRequest (l : Layout) (r : Reader.Reader l) (id : ℕ) (a : Action) (uri : Str)
    : Type 0 where
  pub same_id : Reader.get_request_id l r ≡ id
  pub same_action : Reader.get_action l r ≡ ok a
  pub same_uri : (t : l.TextReader) × (Reader.get_resource_uri l r ≡ ok t) × (l.text t ≡ uri)
  pub same_has : Reader.has_resource_uri l r ≡ true

-- The builder's struct has room for the fields of a request.
abbrev pub IsRoomy : (l : Layout) → Builder.Builder l → Type 0
IsRoomy l b = AtLeast Builder.struct_size (l.size b.builder)

-- The three setters, in the order of `send_request`; none where the last one panics.
abbrev pub filled : (l : Layout) → ℕ → Action → Str → Builder.Builder l → Option (Builder.Builder l)
filled l id a uri b =
    Builder.set_resource_uri l uri (Builder.set_action l a (Builder.set_request_id l id b))

module _ {l : Layout} where
  -- What copies a struct copies the request in it.
  pub Copies-IsRequest :
      (r : Reader.Reader l) (t : l.StructReader) {id : ℕ} {a : Action} {uri : Str}
      → Copies l r.reader t
      → IsRequest l r id a uri
      → IsRequest l (Reader.from l t) id a uri
  unfolding Reader.get_request_id Reader.get_action Reader.get_resource_uri Reader.has_resource_uri
      Reader.from
  Copies-IsRequest r t {uri = uri} copy h = record {
    same_id = copy.same_u32 0 ∙ h.same_id;
    same_action = ap try_from (copy.same_u16 2) ∙ h.same_action;
    same_uri = copy.same_text 0 uri h.same_uri;
    same_has = ap not (copy.same_null 0) ∙ h.same_has;
  }

module _ {l : Layout} (spec : IsLayout l) where
  pub init_pointer-IsRoomy : (p : l.PointerBuilder) (n : ℕ) → IsRoomy l (Builder.init_pointer l p n)
  unfolding Builder.init_pointer Builder.from
  init_pointer-IsRoomy p n = rw (spec.size-init Builder.struct_size p) (omega arith, omega arith)

  pub get_from_pointer-IsRoomy :
      (p : l.PointerBuilder) (d : Option (List Word)) (b : Builder.Builder l)
      → Builder.get_from_pointer l p d ≡ ok b
      → IsRoomy l b
  unfolding Builder.get_from_pointer Builder.from
  get_from_pointer-IsRoomy p d b h =
      let (s, opened, same) = and_then-ok (l.builder_struct Builder.struct_size d p) _ h in
      let room = spec.AtLeast-struct Builder.struct_size d p s opened in
      let e : Builder.from l s ≡ b = cc same in rw (sym e) room

  -- A builder with room for the fields of a request, whose reader finds a URI, reads what the reader
  -- reads: the id, the action (or the same error), whether there is a URI, the size of the message,
  -- and the URI.
  pub builder_getters :
      (b : Builder.Builder l) (t : l.TextReader)
      → IsRoomy l b
      → Reader.get_resource_uri l (Builder.reborrow_as_reader l b) ≡ ok t
      → let r = Builder.reborrow_as_reader l b in
        (Builder.get_request_id l b ≡ Reader.get_request_id l r)
        × (Builder.get_action l b ≡ Reader.get_action l r)
        × (Builder.has_resource_uri l b ≡ Reader.has_resource_uri l r)
        × (Builder.total_size l b ≡ Reader.total_size l r)
        × (u : l.TextBuilder) × (Builder.get_resource_uri l b ≡ ok u)
        × (l.text_of u ≡ l.text t)
  unfolding Reader.get_request_id Reader.get_action Reader.get_resource_uri Reader.has_resource_uri
      Reader.total_size Reader.from Builder.get_request_id Builder.get_action
      Builder.get_resource_uri Builder.has_resource_uri Builder.total_size
      Builder.reborrow_as_reader
  builder_getters b t (data_room, pointer_room) got =
      let (u, opened, same) =
        spec.builder_text-reader 0 (l.text t) b.builder (omega arith) (t, got, refl) in
      (
        spec.builder_u32-reader 0 b.builder (omega arith),
        ap try_from (spec.builder_u16-reader 2 b.builder (omega arith)),
        ap not (spec.builder_null-reader 0 b.builder (omega arith)),
        refl,
        u,
        opened,
        same,
      )

  -- A new struct holds the defaults of the schema.
  pub new_request :
      (p : l.PointerBuilder) (n : ℕ)
      → let r = Builder.into_reader l (Builder.init_pointer l p n) in
        (Reader.get_request_id l r ≡ 0)
        × (Reader.get_action l r ≡ ok Action.fetch)
        × (Reader.has_resource_uri l r ≡ false)
  unfolding Reader.get_request_id Reader.get_action Reader.has_resource_uri Reader.from
      Builder.into_reader Builder.init_pointer Builder.from try_from
  new_request p n = (
    spec.get_u32-init 0 Builder.struct_size p,
    ap try_from (spec.get_u16-init 2 Builder.struct_size p),
    ap not (spec.is_null-init 0 Builder.struct_size p),
  )

  -- The table of capabilities changes nothing of a request.
  pub imbue-IsRequest :
      (c : l.CapTable) (r : Reader.Reader l) {id : ℕ} {a : Action} {uri : Str}
      → IsRequest l r id a uri
      → IsRequest l (Reader.imbue l c r) id a uri
  unfolding Reader.imbue Reader.from
  imbue-IsRequest c r h = Copies-IsRequest r (l.imbue c r.reader) (spec.imbue-Copies c r.reader) h
