-- ===== src/Protocol.antt =====
-- src/protocol.rs: actions, statuses, requests and responses, with the conversions from and to
-- the enums of the Cap'n Proto schema (schema/bxp.capnp), and the errors that the crate returns.
pub mod Conversions
use bxp_core.Base.{ℕ, Bool, true, false, Result, ok}
use bxp_core.Base.Str.{Str}

pub data BxpAction : Type 0 where
  fetch push ping : BxpAction

pub data BxpStatus : Type 0 where
  success bad_request unauthorized not_found internal_error : BxpStatus

-- `enum Action` and `enum StatusCode` of the schema, as the code that is generated from it has them.
pub data Action : Type 0 where
  fetch push ping : Action

pub data StatusCode : Type 0 where
  success bad_request unauthorized not_found internal_error : StatusCode

-- What an `anyhow::Error` of this crate carries. A number stands for the value of a foreign error.
pub data Error : Type 0 where
  quic : ℕ → Error
  capnp : ℕ → Error
  io : ℕ → Error
  too_large : ℕ → Error
  invalid_action : Error
  unknown_status_code : Error
  -- Setting up an endpoint: a foreign error, or one of the messages of `build_server_tls`.
  setup : ℕ → Error
  cert_read key_read : Str → ℕ → Error
  cert_parse key_parse : ℕ → Error
  no_certs no_key : Str → Error

pub record BxpRequest : Type 0 where
  pub req_id : ℕ
  pub action : BxpAction
  pub uri : Str

pub record BxpResponse : Type 0 where
  pub req_id : ℕ
  pub status : BxpStatus

-- `impl From<BxpAction> for bxp_capnp::Action`
unfoldable pub action_into : BxpAction → Action
action_into BxpAction.fetch = Action.fetch
action_into BxpAction.push = Action.push
action_into BxpAction.ping = Action.ping

-- `impl TryFrom<bxp_capnp::Action> for BxpAction`
unfoldable pub action_try_from : Action → Result Error BxpAction
action_try_from Action.fetch = ok BxpAction.fetch
action_try_from Action.push = ok BxpAction.push
action_try_from Action.ping = ok BxpAction.ping

-- `impl From<BxpStatus> for bxp_capnp::StatusCode`
unfoldable pub status_into : BxpStatus → StatusCode
status_into BxpStatus.success = StatusCode.success
status_into BxpStatus.bad_request = StatusCode.bad_request
status_into BxpStatus.unauthorized = StatusCode.unauthorized
status_into BxpStatus.not_found = StatusCode.not_found
status_into BxpStatus.internal_error = StatusCode.internal_error

-- `impl TryFrom<bxp_capnp::StatusCode> for BxpStatus`
unfoldable pub status_try_from : StatusCode → Result Error BxpStatus
status_try_from StatusCode.success = ok BxpStatus.success
status_try_from StatusCode.bad_request = ok BxpStatus.bad_request
status_try_from StatusCode.unauthorized = ok BxpStatus.unauthorized
status_try_from StatusCode.not_found = ok BxpStatus.not_found
status_try_from StatusCode.internal_error = ok BxpStatus.internal_error

-- The discriminants that the enums declare, and the ordinals of the schema.
unfoldable pub action_code : BxpAction → ℕ
action_code BxpAction.fetch = 0
action_code BxpAction.push = 1
action_code BxpAction.ping = 2

unfoldable pub status_code : BxpStatus → ℕ
status_code BxpStatus.success = 0
status_code BxpStatus.bad_request = 1
status_code BxpStatus.unauthorized = 2
status_code BxpStatus.not_found = 3
status_code BxpStatus.internal_error = 4

unfoldable pub action_ordinal : Action → ℕ
action_ordinal Action.fetch = 0
action_ordinal Action.push = 1
action_ordinal Action.ping = 2

unfoldable pub status_ordinal : StatusCode → ℕ
status_ordinal StatusCode.success = 0
status_ordinal StatusCode.bad_request = 1
status_ordinal StatusCode.unauthorized = 2
status_ordinal StatusCode.not_found = 3
status_ordinal StatusCode.internal_error = 4

-- `#[derive(PartialEq, Eq, Hash)]` on `BxpAction`, as the test that the route table makes.
unfoldable pub action_eq : BxpAction → BxpAction → Bool
action_eq BxpAction.fetch BxpAction.fetch = true
action_eq BxpAction.push BxpAction.push = true
action_eq BxpAction.ping BxpAction.ping = true
action_eq _ _ = false
