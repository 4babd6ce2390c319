-- ===== src/Schema/Response/Fields.antt =====
-- The accessors of `response::Reader` and `response::Builder` against each other.
use bxp_core.Base.{ℕ, ◌<◌, ◌≡◌, refl, ◌∙◌, inl, ok, ap, none, Bool, arith}
use bxp_core.Base.Bytes.{u32_mod}
use bxp_core.Schema.Layout.{Layout, IsLayout, AtLeast, Within2, Copies}
use bxp_core.Schema.Response.Builder
use bxp_core.Schema.Response.Reader

-- What the getters of a reader return for a response. The status is a number of 16 bits.
pub record IsResponse (l : Layout) (r : Reader.Reader l) (id status : ℕ) : Type 0 where
  pub same_id : Reader.get_request_id l r ≡ id
  pub same_status : Reader.get_status_code l r ≡ status

abbrev pub IsRoomy : (l : Layout) → Builder.Builder l → Type 0
IsRoomy l b = AtLeast Builder.struct_size (l.size b.builder)

-- The two setters, in the order of `send_response`.
abbrev pub filled : (l : Layout) → ℕ → ℕ → Builder.Builder l → Builder.Builder l
filled l id status b = Builder.set_status_code l status (Builder.set_request_id l id b)

module _ {l : Layout} where
  pub Copies-IsResponse :
      (r : Reader.Reader l) (t : l.StructReader) {id status : ℕ}
      → Copies l r.reader t
      → IsResponse l r id status
      → IsResponse l (Reader.from l t) id status
  unfolding Reader.get_request_id Reader.get_status_code Reader.from
  Copies-IsResponse r t copy h = record {
    same_id = copy.same_u32 0 ∙ h.same_id;
    same_status = copy.same_u16 2 ∙ h.same_status;
  }

module _ {l : Layout} (spec : IsLayout l) where
  pub init_pointer-IsRoomy : (p : l.PointerBuilder) (n : ℕ) → IsRoomy l (Builder.init_pointer l p n)
  unfolding Builder.init_pointer Builder.from
  init_pointer-IsRoomy p n = rw (spec.size-init Builder.struct_size p) (omega arith, omega arith)

  -- A response whose two fields were set through a builder with room for them, with an id below
  -- 2 ^ 32 and a status below 2 ^ 16 and in the order of `send_response`, reads back with exactly
  -- these fields.
  pub filled-IsResponse :
      (id status : ℕ) (b : Builder.Builder l)
      → id < u32_mod
      → status < 65536
      → IsRoomy l b
      → IsResponse l (Builder.into_reader l (filled l id status b)) id status
  unfolding Reader.get_request_id Reader.get_status_code Builder.set_request_id
      Builder.set_status_code Builder.into_reader Reader.from
  filled-IsResponse id status b h k (data_room, pointer_room) =
      let s1 = l.set_u32 0 id b.builder in
      let in1 : Within2 2 (l.size s1) =
        omega (arith, ap (λ s. s.data_words) (spec.size-set_u32 0 id b.builder)) in
      record {
        same_id =
            spec.get_u32-set_u16 0 2 status s1 in1 (inl (omega arith))
            ∙ spec.get_u32-set 0 id b.builder (omega arith) h;
        same_status = spec.get_u16-set 2 status s1 in1 k;
      }

  -- A response that is built in a new struct and copied behind a pointer is found there: if
  -- `set_pointer_builder` returns no error, `get_from_pointer` opens a reader whose getters return
  -- the id (below 2 ^ 32) and the status (below 2 ^ 16) that were set.
  pub copied-IsResponse :
      (p to : l.PointerBuilder) (n id status : ℕ) (canonicalize : Bool)
      → id < u32_mod
      → status < 65536
      → let r = Builder.into_reader l (filled l id status (Builder.init_pointer l p n)) in
        let (res, there) = Builder.set_pointer_builder l to r canonicalize in
        res ≡ ok tt
        → (m : Reader.Reader l) × (Reader.get_from_pointer l (l.pointer_as_reader there) none
            ≡ ok m)
          × IsResponse l m id status
  unfolding Builder.set_pointer_builder Reader.get_from_pointer
  copied-IsResponse p to n id status canonicalize h k done =
      let b = Builder.init_pointer l p n in
      let built = filled-IsResponse id status b h k (init_pointer-IsRoomy p n) in
      let (t, opened, copy) =
        spec.get_struct-set (Builder.into_reader l (filled l id status b)).reader canonicalize to
          done in
      (Reader.from l t, rw opened refl, Copies-IsResponse _ t copy built)

  -- A builder with room for the fields of a response reads what a reader of it reads.
  pub builder_getters :
      (b : Builder.Builder l)
      → IsRoomy l b
      → let r = Builder.reborrow_as_reader l b in
        (Builder.get_request_id l b ≡ Reader.get_request_id l r)
        × (Builder.get_status_code l b ≡ Reader.get_status_code l r)
        × (Builder.total_size l b ≡ Reader.total_size l r)
  unfolding Reader.get_request_id Reader.get_status_code Reader.total_size Reader.from
      Builder.get_request_id Builder.get_status_code Builder.total_size Builder.reborrow_as_reader
  builder_getters b (data_room, pointer_room) = (
    spec.builder_u32-reader 0 b.builder (omega arith),
    spec.builder_u16-reader 2 b.builder (omega arith),
    refl,
  )
