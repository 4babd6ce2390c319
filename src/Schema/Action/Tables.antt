-- ===== src/Schema/Action/Tables.antt =====
-- The numbers of `Action` against the schema that is embedded in schema/bxp_capnp.rs.
use bxp_core.Base.{ℕ, zero, suc, ◌≤◌, ◌≡◌, ◌↔◌, refl, ok, err, none, some, arith}
use bxp_core.Base.Str.{Str, codes}
use bxp_core.Schema.Action.{Action, try_from, encoded_node}
use bxp_core.Schema.Node.{enumerant_at, enumerant_count}
use bxp_core.Schema.Node.Reading.{enumerant_at-none}

-- The name that the schema has for an action.
abbrev name : Action → Str
name Action.fetch = codes "fetch"
name Action.push = codes "push"

node_enumerants :
    (enumerant_at encoded_node 0 ≡ some (name Action.fetch))
    × (enumerant_at encoded_node 1 ≡ some (name Action.push))
    × (enumerant_count encoded_node ≡ 2)
unfolding encoded_node
node_enumerants = (refl, refl, refl)

no_enumerant : (v : ℕ) → 2 ≤ v → enumerant_at encoded_node v ≡ none
no_enumerant v h =
    let (_, _, two) = node_enumerants in enumerant_at-none encoded_node v (omega (arith, two))

try_from_large : (v : ℕ) → 2 ≤ v → try_from v ≡ err v
unfolding try_from
try_from_large v h = ground arith

-- For every number, `try_from` returns an action exactly if the embedded schema has an enumerant
-- with that number and the action's name, and the error with that number exactly if the schema has
-- none.
try_from-enumerant_at :
    (v : ℕ) (a : Action)
    → ((try_from v ≡ ok a) ↔ (enumerant_at encoded_node v ≡ some (name a)))
      × ((try_from v ≡ err v) ↔ (enumerant_at encoded_node v ≡ none))
unfolding try_from
try_from-enumerant_at zero Action.fetch =
    let (e0, _, _) = node_enumerants in rw e0 ((λ h. refl, λ h. refl), (λ h. cc h, λ h. cc h))
try_from-enumerant_at zero Action.push =
    let (e0, _, _) = node_enumerants in rw e0 ((λ h. cc h, λ h. cc h), (λ h. cc h, λ h. cc h))
try_from-enumerant_at (suc zero) Action.fetch =
    let (_, e1, _) = node_enumerants in rw e1 ((λ h. cc h, λ h. cc h), (λ h. cc h, λ h. cc h))
try_from-enumerant_at (suc zero) Action.push =
    let (_, e1, _) = node_enumerants in rw e1 ((λ h. refl, λ h. refl), (λ h. cc h, λ h. cc h))
try_from-enumerant_at (suc (suc v)) a =
    rw (no_enumerant (suc (suc v)) (omega arith), try_from_large (suc (suc v)) (omega arith))
      ((λ h. cc h, λ h. cc h), (λ h. refl, λ h. refl))
