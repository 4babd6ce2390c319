-- ===== src/Examples/Health.antt =====
-- An example for the program that asks for the server's health.
use bxp_core.Base.{[], ◌∷◌, arith}
use bxp_core.Base.Str.{codes, str_eq}
use bxp_core.Capnp.Plain.{plain, plain-IsCapnp}
use bxp_core.Client.{ClientConnection}
use bxp_core.Examples.{wire, server_at, client_at}
use bxp_core.Exchange.Request.{IsSendable}
use bxp_core.Exchange.Response.{IsReply}
use bxp_core.Exchange.Script.{AllServable, request_frames}
use bxp_core.Protocol.{BxpStatus, action_eq}
use bxp_core.Quic.Memory.{memory, memory-IsQuic}
use bxp_core.Server.{ServerConnection}
use bxp_core.Session.Handlers.{ping_status}
use bxp_core.Session.Health.{connection_task, health_check}
use bxp_core.Session.Replies.{output}

health_check-IsSendable : IsSendable plain-IsCapnp health_check
unfolding wire
health_check-IsSendable = record {
  id_fits = omega arith;
  is_text = record { scalars = omega arith; fits = omega arith };
  small = omega arith;
}

healthy-IsReply : IsReply plain-IsCapnp (record { req_id = 1; status = BxpStatus.success })
unfolding wire
healthy-IsReply = record { id_fits = omega arith; small = omega arith }

pub health_check-AllServable :
    AllServable plain-IsCapnp (ping_status (codes "bxp://health")) (health_check ∷ [])
unfolding ping_status action_eq str_eq
health_check-AllServable = (health_check-IsSendable, healthy-IsReply, tt)

abbrev asked : ServerConnection memory
asked = server_at (request_frames plain-IsCapnp (health_check ∷ []))

abbrev asking : ClientConnection memory
asking = client_at (output memory-IsQuic plain-IsCapnp (connection_task memory plain 2 asked))
