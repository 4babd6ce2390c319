-- ===== src/Schema/Action/Codes.antt =====
-- The numbers of `Action` in schema/bxp_capnp.rs against the enum of src/protocol.rs.
use bxp_core.Base.{◌<◌, ◌≡◌, refl, ◌↔◌, ok, err, arith}
use bxp_core.Protocol.{BxpAction, action_code}
use bxp_core.Schema.Action.{Action, to_u16, try_from}

pub try_from-to_u16 : (a : Action) → (try_from (to_u16 a) ≡ ok a) × (to_u16 a < 65536)
unfolding try_from to_u16
try_from-to_u16 Action.fetch = (refl, omega arith)
try_from-to_u16 Action.push = (refl, omega arith)

-- Of the actions of src/protocol.rs, the kept copy of the generated code rejects exactly `Ping`, as
-- a number that is not in the schema.
try_from-ping_iff :
    (a : BxpAction) → (try_from (action_code a) ≡ err (action_code a)) ↔ (a ≡ BxpAction.ping)
unfolding try_from action_code
try_from-ping_iff BxpAction.fetch = (λ e. cc, λ e. cc)
try_from-ping_iff BxpAction.push = (λ e. cc, λ e. cc)
try_from-ping_iff BxpAction.ping = (λ e. refl, λ e. refl)
