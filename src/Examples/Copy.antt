-- ===== src/Examples/Copy.antt =====
-- Examples for the kept copy of the generated code, over structs in memory: fields of four bytes,
-- of two bytes, and texts, each by its index.
pub mod Requests
mod Values
use bxp_core.Base.{
  ℕ, ◌≤◌, ◌≡◌, refl, sym, Bool, true, false, [], ok, err, ◌==◌, if◌then◌else◌, ltb, ltb-eq-true,
  length, ◌*◌, ◌∙◌, Option, none, some, Result, ap, arith,
}
use bxp_core.Base.Str.{Str}
use bxp_core.Capnp.{IsText}
use bxp_core.Schema.Layout.{Layout, IsLayout, StructSize, AtLeast, Copies}

-- Distinct widths do not share storage here.
pub record Fields : Type 0 where
  pub wide : ℕ → ℕ
  pub narrow : ℕ → ℕ
  pub texts : ℕ → Option Str
  pub space : StructSize

-- What a pointer leads to.
pub data Target : Type 0 where
  nothing : Target
  a_text : Str → Target
  a_struct : Fields → Target

abbrev put {ℓ} : {A : Type ℓ} → (ℕ → A) → ℕ → A → ℕ → A
put f i v j = if i == j then v else f j

abbrev empty : StructSize → Fields
empty s = record { wide = λ i. 0; narrow = λ i. 0; texts = λ i. none; space = s }

abbrev target : Option Str → Target
target none = Target.nothing
target (some s) = Target.a_text s

abbrev is_nothing : Target → Bool
is_nothing Target.nothing = true
is_nothing _ = false

abbrev text_at : Target → Result ℕ Str
text_at Target.nothing = ok []
text_at (Target.a_text s) = ok s
text_at (Target.a_struct f) = err 1

abbrev larger : ℕ → ℕ → ℕ
larger a b = if ltb a b then b else a

abbrev grown : StructSize → Fields → Fields
grown s f = record f {
  space = record {
    data_words = larger s.data_words f.space.data_words;
    pointers = larger s.pointers f.space.pointers;
  };
}

abbrev struct_at : StructSize → Target → Result ℕ Fields
struct_at s Target.nothing = ok (empty s)
struct_at s (Target.a_text t) = err 1
struct_at s (Target.a_struct f) = ok (grown s f)

abbrev found : Target → Result ℕ Fields
found Target.nothing = ok (empty (record { data_words = 0; pointers = 0 }))
found (Target.a_text t) = err 1
found (Target.a_struct f) = ok f

-- A text whose size in bytes may be no 29-bit number is refused.
abbrev set_if : Bool → Fields → Option Fields
set_if true f = some f
set_if false f = none

abbrev pub fields : Layout
fields = record {
  StructReader = Fields;
  StructBuilder = Fields;
  PointerReader = Target;
  PointerBuilder = Target;
  TextReader = Str;
  TextBuilder = Str;
  CapTable = Unit;
  MessageSize = StructSize;
  get_u32 = λ i r. r.wide i;
  get_u16 = λ i r. r.narrow i;
  get_pointer_field = λ p r. target (r.texts p);
  total_size = λ r. ok r.space;
  imbue = λ c r. r;
  is_null = is_nothing;
  get_struct = λ d p. found p;
  get_text = λ d p. text_at p;
  builder_u32 = λ i b. b.wide i;
  builder_u16 = λ i b. b.narrow i;
  set_u32 = λ i v b. record b { wide = put b.wide i v };
  set_u16 = λ i v b. record b { narrow = put b.narrow i v };
  set_text =
      λ p s b. set_if (ltb (4 * length s) 536870911) (record b { texts = put b.texts p (some s) });
  builder_pointer_field = λ p b. target (b.texts p);
  is_pointer_field_null = λ p b. is_nothing (target (b.texts p));
  as_reader = λ b. b;
  imbue_mut = λ c b. b;
  init_struct = λ s p. empty s;
  init_text = λ n p. [];
  builder_struct = λ s d p. struct_at s p;
  builder_text = λ d p. text_at p;
  set_struct = λ r c p. (ok tt, Target.a_struct r);
  pointer_as_reader = λ p. p;
  text = λ t. t;
  text_of = λ t. t;
  size = λ b. b.space;
}

put_self {ℓ} : {A : Type ℓ} (f : ℕ → A) (i : ℕ) (v : A) → put f i v i ≡ v
put_self f i v = ground arith

set_if-some : (c : Bool) (f t : Fields) → set_if c f ≡ some t → t ≡ f
set_if-some true f t h = cc h
set_if-some false f t h = cc h

set_if-true : (c : Bool) (f : Fields) → c ≡ true → (t : Fields) × (set_if c f ≡ some t)
set_if-true true f h = (f, refl)
set_if-true false f h = cc h

fits_lem : (s : Str) → IsText s → ltb (4 * length s) 536870911 ≡ true
fits_lem s h = ltb-eq-true (4 * length s) 536870911 h.fits

larger-left : (a b : ℕ) → a ≤ larger a b
larger-left a b = ground arith

struct_at-AtLeast :
    (s : StructSize) (p : Target) (b : Fields) → struct_at s p ≡ ok b → AtLeast s b.space
struct_at-AtLeast s Target.nothing b h =
    let e : empty s ≡ b = cc h in rw (sym e) (omega arith, omega arith)
struct_at-AtLeast s (Target.a_text t) b h = cc h
struct_at-AtLeast s (Target.a_struct f) b h =
    let e : grown s f ≡ b = cc h in
    rw (sym e)
      (larger-left s.data_words f.space.data_words, larger-left s.pointers f.space.pointers)

all_same : (r : Fields) → Copies fields r r
all_same r = record {
  same_u32 = λ i. refl;
  same_u16 = λ i. refl;
  same_null = λ p. refl;
  same_text = λ p s h. h;
}

pub fields-IsLayout : IsLayout fields
fields-IsLayout = record {
  get_u32-set = λ i v b k h. put_self b.wide i v;
  get_u16-set = λ i v b k h. put_self b.narrow i v;
  get_u32-set_u16 = λ i j v b k h. refl;
  get_u16-set_u32 = λ i j v b k h. refl;
  set_text-fits = λ p s b k h. set_if-true (ltb (4 * length s) 536870911) _ (fits_lem s h);
  get_u32-set_text = λ i p s b k h. ap (λ f. f.wide i) (set_if-some _ _ _ h);
  get_u16-set_text = λ i p s b k h. ap (λ f. f.narrow i) (set_if-some _ _ _ h);
  get_text-set = λ p s b k h. (
    s,
    ap (λ f. text_at (target (f.texts p))) (set_if-some _ _ _ h)
        ∙ ap (λ t. text_at (target t)) (put_self b.texts p (some s)),
    refl,
  );
  is_null-set = λ p s b k h.
      ap (λ f. is_nothing (target (f.texts p))) (set_if-some _ _ _ h)
      ∙ ap (λ t. is_nothing (target t)) (put_self b.texts p (some s));
  size-set_u32 = λ i v b. refl;
  size-set_u16 = λ i v b. refl;
  builder_u32-reader = λ i b k. refl;
  builder_u16-reader = λ i b k. refl;
  builder_null-reader = λ p b k. refl;
  builder_text-reader = λ p s b k h. h;
  size-init = λ s p. refl;
  get_u32-init = λ i s p. refl;
  get_u16-init = λ i s p. refl;
  is_null-init = λ i s p. refl;
  AtLeast-struct = λ s d p b h. struct_at-AtLeast s p b h;
  get_struct-set = λ r c p h. (r, refl, all_same r);
  imbue-Copies = λ c r. all_same r;
}
