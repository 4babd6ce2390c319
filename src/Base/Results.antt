-- ===== src/Base/Results.antt =====
-- `Result<A, E>`, and a method that takes `&mut self` and returns a `Result`: a function from the
-- state to the result and the state after the call, which is kept when the call fails.
use mathlib.Core.Path.{◌≡◌, refl, ap, ◌∙◌}
use mathlib.Core.Logic.{◌⊎◌, inl, inr}

pub data Result (E A : Type 0) : Type 0 where
  ok : A → Result E A
  err : E → Result E A

-- `Result::map_err`, and the conversion that `?` makes.
abbrev pub map_err : {E F A : Type 0} → (E → F) → Result E A → Result F A
map_err f (ok a) = ok a
map_err f (err e) = err (f e)

abbrev pub and_then : {E A B : Type 0} → Result E A → (A → Result E B) → Result E B
and_then (ok a) f = f a
and_then (err e) f = err e

pub Result-cases :
    {E A : Type 0} (r : Result E A) → ((a : A) × (r ≡ ok a)) ⊎ ((e : E) × (r ≡ err e))
Result-cases (ok a) = inl (a, refl)
Result-cases (err e) = inr (e, refl)

-- Inversion of a chain that succeeded.
pub and_then-ok :
    {E A B : Type 0} (r : Result E A) (f : A → Result E B) {b : B}
    → and_then r f ≡ ok b
    → (a : A) × (r ≡ ok a) × (f a ≡ ok b)
and_then-ok (ok a) f h = (a, refl, h)
and_then-ok (err e) f h = cc

pub map_err-ok :
    {E F A : Type 0} (f : E → F) (r : Result E A) {a : A} → map_err f r ≡ ok a → r ≡ ok a
map_err-ok f (ok b) h = cc
map_err-ok f (err e) h = cc

abbrev pub Method : (E S A : Type 0) → Type 0
Method E S A = S → Result E A × S

module _ {E S : Type 0} where
  abbrev after : {A B : Type 0} → Result E A → (A → Method E S B) → Method E S B
  after (ok a) f s = f a s
  after (err e) f s = (err e, s)

  infixl 5 ◌>>=◌ ◌>>◌
  abbrev pub ◌>>=◌ : {A B : Type 0} → Method E S A → (A → Method E S B) → Method E S B
  ◌>>=◌ m f s = after (m s).0 f (m s).1

  abbrev pub ◌>>◌ : {A B : Type 0} → Method E S A → Method E S B → Method E S B
  m >> k = m >>= λ _. k

  abbrev pub lift : {A : Type 0} → Result E A → Method E S A
  lift r s = (r, s)

  -- A step that succeeds hands its value and its state to the rest.
  pub >>=-ok :
      {A B : Type 0} (m : Method E S A) (f : A → Method E S B) (s : S) (a : A)
      → (m s).0 ≡ ok a
      → (m >>= f) s ≡ f a (m s).1
  >>=-ok m f s a h = rw (h, after)

  -- A step that fails ends the call in the state that it left.
  pub >>=-err :
      {A B : Type 0} (m : Method E S A) (f : A → Method E S B) (s : S) (e : E)
      → (m s).0 ≡ err e
      → (m >>= f) s ≡ (err e, (m s).1)
  >>=-err m f s e h = rw (h, after)

  -- What the rest of a call leaves alone is as the first step left it.
  pub >>=-keeps :
      {A B X : Type 0} (view : S → X) (m : Method E S A) (f : A → Method E S B) (s : S)
      → ((a : A) (t : S) → view (f a t).1 ≡ view t)
      → view ((m >>= f) s).1 ≡ view (m s).1
  >>=-keeps view m f s same = elim (Result-cases (m s).0) [
    | inl (a, got) ↦ ap (λ x. view x.1) (>>=-ok m f s a got) ∙ same a (m s).1
    | inr (e, failed) ↦ ap (λ x. view x.1) (>>=-err m f s e failed)
  ]

  after-return : (r : Result E (Unit {0})) (s : S) → after r (λ _. lift (ok tt)) s ≡ (r, s)
  after-return (ok _) s = refl
  after-return (err e) s = refl

  -- `?` and then `Ok(())` at the end of a call change nothing.
  pub >>-return : (m : Method E S (Unit {0})) (s : S) → (m >> lift (ok tt)) s ≡ m s
  >>-return m s = after-return (m s).0 (m s).1
