-- ===== src/HashMap.antt =====
-- The operations of `std::collections::HashMap` that src/router.rs calls, over keys that can be
-- compared. The order of the entries is not observed.
use bxp_core.Base.{
  ◌≡◌, refl, ◌↔◌, inl, inr, Bool, true, Option, some, none, List, [], ◌∷◌, Bool-cases,
  if◌then◌else◌, arith,
}
use bxp_core.Base.Str.{Str, str_eq, str_eq_iff}
use bxp_core.Protocol.{BxpAction, action_eq}
use bxp_core.Protocol.Conversions.{action_eq_iff}

-- `Eq` and `Hash` of a key type.
pub record Key (K : Type 0) : Type 0 where
  pub same : K → K → Bool
  pub same_iff : (a b : K) → (same a b ≡ true) ↔ (a ≡ b)

instance abbrev pub action_key : Key BxpAction
action_key = record { same = action_eq; same_iff = action_eq_iff }

instance abbrev pub str_key : Key Str
str_key = record { same = str_eq; same_iff = str_eq_iff }

abbrev pub HashMap : Type 0 → Type 0 → Type 0
HashMap K V = List (K × V)

module _ {K V : Type 0} ⦃key : Key K⦄ where
  unfoldable pub get : HashMap K V → K → Option V
  get [] k = none
  get ((j, v) ∷ m) k = if key.same j k then some v else get m k

  -- An entry with the key is overwritten.
  unfoldable pub insert : HashMap K V → K → V → HashMap K V
  insert [] k v = (k, v) ∷ []
  insert ((j, w) ∷ m) k v = if key.same j k then (j, v) ∷ m else (j, w) ∷ insert m k v

  -- The value of an entry, or that of a new one: `entry(k).or_insert_with(…)`.
  unfoldable pub entry_or : HashMap K V → K → V → V
  entry_or m k new = elim (get m k) [ some v ↦ v | none ↦ new ]

  pub get-insert :
      (m : HashMap K V) (k j : K) (v : V)
      → get (insert m k v) j ≡ (if key.same k j then some v else get m j)
  unfolding get insert
  get-insert [] k j v = refl
  get-insert ((i, w) ∷ m) k j v = elim (Bool-cases (key.same i k)) [
    | inl here ↦ ground (arith, (key.same_iff i k).0 here)
    | inr other ↦ ground (
      arith,
      get-insert m k j v,
      (key.same_iff i j).0,
      (key.same_iff k j).0,
      (key.same_iff i k).1,
    )
  ]
