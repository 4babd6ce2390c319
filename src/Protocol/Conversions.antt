-- ===== src/Protocol/Conversions.antt =====
-- The enum conversions of src/protocol.rs lose and mix up nothing.
use bxp_core.Base.{◌≡◌, refl, ◌↔◌, true, ok, arith}
use bxp_core.Protocol.{
  BxpAction, BxpStatus, Action, StatusCode, action_into, action_try_from, status_into,
  status_try_from, action_code, status_code, action_ordinal, status_ordinal, action_eq,
}

-- An action that is converted to the schema's enum is converted back, the schema's enum converts
-- without an error to an action that converts back to it, and the conversion keeps the number
-- that both enums declare.
pub action_round_trip :
    ((a : BxpAction)
      → (action_try_from (action_into a) ≡ ok a) × (action_ordinal (action_into a) ≡ action_code a))
    × ((c : Action) → (a : BxpAction) × (action_try_from c ≡ ok a) × (action_into a ≡ c))
unfolding action_into action_try_from action_ordinal action_code
action_round_trip = (
  elim [
    | BxpAction.fetch ↦ (refl, refl)
    | BxpAction.push ↦ (refl, refl)
    | BxpAction.ping ↦ (refl, refl)
  ],
  elim [
    | Action.fetch ↦ (BxpAction.fetch, refl, refl)
    | Action.push ↦ (BxpAction.push, refl, refl)
    | Action.ping ↦ (BxpAction.ping, refl, refl)
  ],
)

-- A status that is converted to the schema's enum is converted back, the schema's enum converts
-- without an error to a status that converts back to it, and the conversion keeps the number
-- that both enums declare.
pub status_round_trip :
    ((s : BxpStatus)
      → (status_try_from (status_into s) ≡ ok s) × (status_ordinal (status_into s) ≡ status_code s))
    × ((c : StatusCode) → (s : BxpStatus) × (status_try_from c ≡ ok s) × (status_into s ≡ c))
unfolding status_into status_try_from status_ordinal status_code
status_round_trip = (
  elim [
    | BxpStatus.success ↦ (refl, refl)
    | BxpStatus.bad_request ↦ (refl, refl)
    | BxpStatus.unauthorized ↦ (refl, refl)
    | BxpStatus.not_found ↦ (refl, refl)
    | BxpStatus.internal_error ↦ (refl, refl)
  ],
  elim [
    | StatusCode.success ↦ (BxpStatus.success, refl, refl)
    | StatusCode.bad_request ↦ (BxpStatus.bad_request, refl, refl)
    | StatusCode.unauthorized ↦ (BxpStatus.unauthorized, refl, refl)
    | StatusCode.not_found ↦ (BxpStatus.not_found, refl, refl)
    | StatusCode.internal_error ↦ (BxpStatus.internal_error, refl, refl)
  ],
)

pub action_eq_refl : (a : BxpAction) → action_eq a a ≡ true
unfolding action_eq
action_eq_refl BxpAction.fetch = refl
action_eq_refl BxpAction.push = refl
action_eq_refl BxpAction.ping = refl

action_eq_sound : (a b : BxpAction) → action_eq a b ≡ true → a ≡ b
unfolding action_eq
action_eq_sound a b h = ground arith

pub action_eq_iff : (a b : BxpAction) → (action_eq a b ≡ true) ↔ (a ≡ b)
unfolding action_eq
action_eq_iff a b = (action_eq_sound a b, λ e. ground (arith, action_eq_refl b))
