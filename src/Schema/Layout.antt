-- ===== src/Schema/Layout.antt =====
-- What schema/bxp_capnp.rs calls of `capnp::private::layout`, which is not in the repository: the
-- operations as a parameter, and their documented behaviour as hypotheses. A data field is
-- addressed by its index in units of its own size, a pointer by its index. The builder's accesses
-- are not checked against the size of the struct, so what is promised of them holds within it.
use bxp_core.Base.{
  ℕ, ◌+◌, ◌*◌, ◌≤◌, ◌<◌, ◌≡◌, ◌⊎◌, Bool, true, false, List, [], ◌∷◌, Option, none, some, Result, ok,
}
use bxp_core.Base.Bytes.{u32_mod}
use bxp_core.Base.Str.{Str}
use bxp_core.Capnp.{IsText}

-- `capnp::Word`, as its eight bytes.
abbrev pub Word : Type 0
Word = List ℕ

-- `capnp::word`
abbrev pub word : ℕ → ℕ → ℕ → ℕ → ℕ → ℕ → ℕ → ℕ → Word
word a b c d e f g h = a ∷ b ∷ c ∷ d ∷ e ∷ f ∷ g ∷ h ∷ []

-- `StructSize`: words of data, and pointers.
pub record StructSize : Type 0 where
  pub data_words : ℕ
  pub pointers : ℕ

pub record Layout : Type 1 where
  pub StructReader : Type 0
  pub StructBuilder : Type 0
  pub PointerReader : Type 0
  pub PointerBuilder : Type 0
  pub TextReader : Type 0
  pub TextBuilder : Type 0
  pub CapTable : Type 0
  pub MessageSize : Type 0
  -- StructReader.
  pub get_u32 : ℕ → StructReader → ℕ
  pub get_u16 : ℕ → StructReader → ℕ
  pub get_pointer_field : ℕ → StructReader → PointerReader
  pub total_size : StructReader → Result ℕ MessageSize
  pub imbue : CapTable → StructReader → StructReader
  -- PointerReader, and the text that it points to.
  pub is_null : PointerReader → Bool
  pub get_struct : Option (List Word) → PointerReader → Result ℕ StructReader
  pub get_text : Option (List Word) → PointerReader → Result ℕ TextReader
  -- StructBuilder; `set_text` is the struct after its pointer was set to a new text, and none
  -- where the call panics, as it does for a text whose size is no 29-bit number.
  pub builder_u32 : ℕ → StructBuilder → ℕ
  pub builder_u16 : ℕ → StructBuilder → ℕ
  pub set_u32 : ℕ → ℕ → StructBuilder → StructBuilder
  pub set_u16 : ℕ → ℕ → StructBuilder → StructBuilder
  pub set_text : ℕ → Str → StructBuilder → Option StructBuilder
  pub builder_pointer_field : ℕ → StructBuilder → PointerBuilder
  pub is_pointer_field_null : ℕ → StructBuilder → Bool
  pub as_reader : StructBuilder → StructReader
  pub imbue_mut : CapTable → StructBuilder → StructBuilder
  -- PointerBuilder, and the text that it points to.
  pub init_struct : StructSize → PointerBuilder → StructBuilder
  pub init_text : ℕ → PointerBuilder → TextBuilder
  pub builder_struct : StructSize → Option (List Word) → PointerBuilder → Result ℕ StructBuilder
  pub builder_text : Option (List Word) → PointerBuilder → Result ℕ TextBuilder
  pub set_struct : StructReader → Bool → PointerBuilder → Result ℕ (Unit {0}) × PointerBuilder
  pub pointer_as_reader : PointerBuilder → PointerReader
  -- The contents of a text, and the size that a struct has in the message.
  pub text : TextReader → Str
  pub text_of : TextBuilder → Str
  pub size : StructBuilder → StructSize

-- A field of four or of two bytes, or a pointer, lies within a struct of that size.
abbrev pub Within4 : ℕ → StructSize → Type 0
Within4 i s = 4 * i + 4 ≤ 8 * s.data_words

abbrev pub Within2 : ℕ → StructSize → Type 0
Within2 i s = 2 * i + 2 ≤ 8 * s.data_words

abbrev pub AtLeast : StructSize → StructSize → Type 0
AtLeast s t = (s.data_words ≤ t.data_words) × (s.pointers ≤ t.pointers)

-- Two fields of four and of two bytes do not overlap.
abbrev pub Apart : ℕ → ℕ → Type 0
Apart i j = (4 * i + 4 ≤ 2 * j) ⊎ (2 * j + 2 ≤ 4 * i)

-- The pointer leads to this text, or is null and the text is empty.
abbrev pub Holds : (l : Layout) → l.PointerReader → Str → Type 0
Holds l p s = (t : l.TextReader) × (l.get_text none p ≡ ok t) × (l.text t ≡ s)

-- Whatever is read of one struct is read of the other.
pub record Copies (l : Layout) (r t : l.StructReader) : Type 0 where
  pub same_u32 : (i : ℕ) → l.get_u32 i t ≡ l.get_u32 i r
  pub same_u16 : (i : ℕ) → l.get_u16 i t ≡ l.get_u16 i r
  pub same_null :
      (p : ℕ) → l.is_null (l.get_pointer_field p t) ≡ l.is_null (l.get_pointer_field p r)
  pub same_text :
      (p : ℕ) (s : Str) → Holds l (l.get_pointer_field p r) s → Holds l (l.get_pointer_field p t) s

pub record IsLayout (l : Layout) : Type 0 where
  pub get_u32-set :
      (i v : ℕ) (b : l.StructBuilder)
      → Within4 i (l.size b)
      → v < u32_mod
      → l.get_u32 i (l.as_reader (l.set_u32 i v b)) ≡ v
  pub get_u16-set :
      (i v : ℕ) (b : l.StructBuilder)
      → Within2 i (l.size b)
      → v < 65536
      → l.get_u16 i (l.as_reader (l.set_u16 i v b)) ≡ v
  pub get_u32-set_u16 :
      (i j v : ℕ) (b : l.StructBuilder)
      → Within2 j (l.size b)
      → Apart i j
      → l.get_u32 i (l.as_reader (l.set_u16 j v b)) ≡ l.get_u32 i (l.as_reader b)
  pub get_u16-set_u32 :
      (i j v : ℕ) (b : l.StructBuilder)
      → Within4 j (l.size b)
      → Apart j i
      → l.get_u16 i (l.as_reader (l.set_u32 j v b)) ≡ l.get_u16 i (l.as_reader b)
  -- A text of at most that size can be set. Pointers stand in a section of their own.
  pub set_text-fits :
      (p : ℕ) (s : Str) (b : l.StructBuilder)
      → p < (l.size b).pointers
      → IsText s
      → (t : l.StructBuilder) × (l.set_text p s b ≡ some t)
  pub get_u32-set_text :
      (i p : ℕ) (s : Str) (b : l.StructBuilder) {t : l.StructBuilder}
      → p < (l.size b).pointers
      → l.set_text p s b ≡ some t
      → l.get_u32 i (l.as_reader t) ≡ l.get_u32 i (l.as_reader b)
  pub get_u16-set_text :
      (i p : ℕ) (s : Str) (b : l.StructBuilder) {t : l.StructBuilder}
      → p < (l.size b).pointers
      → l.set_text p s b ≡ some t
      → l.get_u16 i (l.as_reader t) ≡ l.get_u16 i (l.as_reader b)
  pub get_text-set :
      (p : ℕ) (s : Str) (b : l.StructBuilder) {t : l.StructBuilder}
      → p < (l.size b).pointers
      → l.set_text p s b ≡ some t
      → Holds l (l.get_pointer_field p (l.as_reader t)) s
  pub is_null-set :
      (p : ℕ) (s : Str) (b : l.StructBuilder) {t : l.StructBuilder}
      → p < (l.size b).pointers
      → l.set_text p s b ≡ some t
      → l.is_null (l.get_pointer_field p (l.as_reader t)) ≡ false
  -- A setter keeps the size.
  pub size-set_u32 : (i v : ℕ) (b : l.StructBuilder) → l.size (l.set_u32 i v b) ≡ l.size b
  pub size-set_u16 : (i v : ℕ) (b : l.StructBuilder) → l.size (l.set_u16 i v b) ≡ l.size b
  -- A builder reads what its reader reads.
  pub builder_u32-reader :
      (i : ℕ) (b : l.StructBuilder)
      → Within4 i (l.size b)
      → l.builder_u32 i b ≡ l.get_u32 i (l.as_reader b)
  pub builder_u16-reader :
      (i : ℕ) (b : l.StructBuilder)
      → Within2 i (l.size b)
      → l.builder_u16 i b ≡ l.get_u16 i (l.as_reader b)
  pub builder_null-reader :
      (p : ℕ) (b : l.StructBuilder)
      → p < (l.size b).pointers
      → l.is_pointer_field_null p b ≡ l.is_null (l.get_pointer_field p (l.as_reader b))
  pub builder_text-reader :
      (p : ℕ) (s : Str) (b : l.StructBuilder)
      → p < (l.size b).pointers
      → Holds l (l.get_pointer_field p (l.as_reader b)) s
      → (t : l.TextBuilder) × (l.builder_text none (l.builder_pointer_field p b) ≡ ok t)
        × (l.text_of t ≡ s)
  -- A new struct has the size asked for, and is zero; one that is opened is at least as large.
  pub size-init : (s : StructSize) (p : l.PointerBuilder) → l.size (l.init_struct s p) ≡ s
  pub get_u32-init :
      (i : ℕ) (s : StructSize) (p : l.PointerBuilder)
      → l.get_u32 i (l.as_reader (l.init_struct s p)) ≡ 0
  pub get_u16-init :
      (i : ℕ) (s : StructSize) (p : l.PointerBuilder)
      → l.get_u16 i (l.as_reader (l.init_struct s p)) ≡ 0
  pub is_null-init :
      (i : ℕ) (s : StructSize) (p : l.PointerBuilder)
      → l.is_null (l.get_pointer_field i (l.as_reader (l.init_struct s p))) ≡ true
  pub AtLeast-struct :
      (s : StructSize) (d : Option (List Word)) (p : l.PointerBuilder) (b : l.StructBuilder)
      → l.builder_struct s d p ≡ ok b
      → AtLeast s (l.size b)
  -- A struct that was copied behind a pointer is found there.
  pub get_struct-set :
      (r : l.StructReader) (canonicalize : Bool) (p : l.PointerBuilder)
      → (l.set_struct r canonicalize p).0 ≡ ok tt
      → (t : l.StructReader) × (l.get_struct none
            (l.pointer_as_reader (l.set_struct r canonicalize p).1)
          ≡ ok t)
        × Copies l r t
  -- The table of capabilities is no part of the data.
  pub imbue-Copies : (c : l.CapTable) (r : l.StructReader) → Copies l r (l.imbue c r)
