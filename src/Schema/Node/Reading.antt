-- ===== src/Schema/Node/Reading.antt =====
-- What follows from an embedded schema: how a field of a struct is read, which type it has, and
-- which bytes of the struct it takes.
use bxp_core.Base.{
  ℕ, ◌+◌, ◌*◌, ◌≤◌, ◌≡◌, ◌≢◌, refl, Bool, true, false, ◌&&◌, ltb, List, [], ◌∷◌, Option, none, some,
  Result, ltb-eq-false, ◌==◌, if◌then◌else◌,
}
use bxp_core.Base.Str.{Str}
use bxp_core.Schema.Action
use bxp_core.Schema.Introspect.{Introspect}
use bxp_core.Schema.Layout.{Layout, StructSize, Word}
use bxp_core.Schema.Node.{Field, Kind, field_at, field_count, enumerant_at, enumerant_count}

pub data Value (l : Layout) : Type 0 where
  number : ℕ → Value l
  -- The id of the enum, and the number.
  enumerant : ℕ → ℕ → Value l
  text : Result ℕ l.TextReader → Value l
  unknown : Value l

abbrev read_kind : (l : Layout) → ℕ → l.StructReader → Kind → Value l
read_kind l offset r Kind.kind_u16 = Value.number (l.get_u16 offset r)
read_kind l offset r Kind.kind_u32 = Value.number (l.get_u32 offset r)
read_kind l offset r Kind.kind_text = Value.text (l.get_text none (l.get_pointer_field offset r))
read_kind l offset r (Kind.kind_enum id) = Value.enumerant id (l.get_u16 offset r)
read_kind l offset r (Kind.kind_other n) = Value.unknown

abbrev read : (l : Layout) → l.StructReader → Option Field → Option (Str × Value l)
read l r none = none
read l r (some f) = some (f.name, read_kind l f.offset r f.kind)

-- The name and the value of field `i`.
abbrev pub read_at : (l : Layout) → List Word → ℕ → l.StructReader → Option (Str × Value l)
read_at l node i r = read l r (field_at node i)

abbrev introspected : (t : Introspect) → Kind → Option t.Introspected
introspected t Kind.kind_u16 = some t.of_u16
introspected t Kind.kind_u32 = some t.of_u32
introspected t Kind.kind_text = some t.of_text
introspected t (Kind.kind_enum id) =
    if id == Action.type_id then some (Action.introspect t) else none
introspected t (Kind.kind_other n) = none

abbrev declared : (t : Introspect) → Option Field → Option t.Introspected
declared t none = none
declared t (some f) = introspected t f.kind

-- The type of field `i`, where the only enum is `Action`.
abbrev pub type_at : (t : Introspect) → List Word → ℕ → Option t.Introspected
type_at t node i = declared t (field_at node i)

abbrev width : Kind → ℕ
width Kind.kind_u16 = 2
width Kind.kind_u32 = 4
width Kind.kind_text = 8
width (Kind.kind_enum id) = 2
width (Kind.kind_other n) = 0

-- The first byte of the section that a field is in, and the byte behind it: pointers follow data.
abbrev section_start : StructSize → Kind → ℕ
section_start s Kind.kind_text = 8 * s.data_words
section_start s _ = 0

abbrev pub section_stop : StructSize → Field → ℕ
section_stop s f = stop f.kind
  where
    stop : Kind → ℕ
    stop Kind.kind_text = 8 * s.data_words + 8 * s.pointers
    stop _ = 8 * s.data_words

-- The first byte of a field, and the byte behind it.
abbrev pub start : StructSize → Field → ℕ
start s f = section_start s f.kind + width f.kind * f.offset

abbrev pub stop : StructSize → Field → ℕ
stop s f = start s f + width f.kind

-- The order of texts by their first difference.
abbrev before : Str → Str → Bool
before [] [] = false
before [] (b ∷ t) = true
before (a ∷ s) [] = false
before (a ∷ s) (b ∷ t) = let rest = before s t in if a == b then rest else ltb a b

abbrev name_of : Option Field → Str
name_of none = []
name_of (some f) = f.name

-- The names of these fields are in increasing order.
abbrev pub by_name : List Word → List ℕ → Bool
by_name node [] = true
by_name node (i ∷ []) = true
by_name node (i ∷ (j ∷ is)) =
    before (name_of (field_at node i)) (name_of (field_at node j)) && by_name node (j ∷ is)

pub field_at-none : (node : List Word) (i : ℕ) → field_count node ≤ i → field_at node i ≡ none
field_at-none node i h = rw (ltb-eq-false i (field_count node) h) refl

pub enumerant_at-none :
    (node : List Word) (i : ℕ) → enumerant_count node ≤ i → enumerant_at node i ≡ none
enumerant_at-none node i h = rw (ltb-eq-false i (enumerant_count node) h) refl

pub some_unique : {o : Option Field} {f g : Field} → o ≡ some f → o ≡ some g → f ≡ g
some_unique h k = cc (h, k)

pub some_absent : {o : Option Field} {f : Field} → o ≡ none → o ≢ some f
some_absent h k = cc (h, k)
