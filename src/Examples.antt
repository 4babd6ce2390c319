-- ===== src/Examples.antt =====
-- Concrete connections, requests and routers over the transport in memory and the plain wire
-- format, for the examples of the theorems and the tests below.
mod Control
mod Data
mod DataPlane
mod DataLoss
mod DataQuiet
mod Routing
mod Served
mod Endpoint
mod Copy
mod Accepting
mod Transfers
mod Loops
mod Health
mod System
mod Loss
mod Programs
use bxp_core.Base.{ℕ, none, some, List, [], ◌∷◌, arith}
use bxp_core.Base.Str.{codes, str_eq}
use bxp_core.Capnp.Plain.{plain-IsCapnp}
use bxp_core.Client.{ClientConnection, request_message}
use bxp_core.Exchange.Request.{request_payload, IsSendable}
use bxp_core.Exchange.Response.{response_payload, IsReply}
use bxp_core.Exchange.Script.{AllServable}
use bxp_core.Frame.{frame}
use bxp_core.Protocol.{
  BxpAction, BxpRequest, BxpResponse, BxpStatus, action_into, status_into, action_eq,
}
use bxp_core.Quic.Memory.{memory, memory-IsQuic, Link, Bytes, fresh}
use bxp_core.Server.{ServerConnection, response_message}
use bxp_core.Session.Handlers.{ping_status}

-- What the transport in memory and the plain wire format need to be computed with.
unfoldable pub wire : Unit {0}
unfolding plain-IsCapnp memory-IsQuic request_message response_message action_into status_into
wire = tt

abbrev pub link : List (List ℕ) → Link
link arriving = record { incoming = arriving; delivered = []; closed_with = none }

-- A server connection with these bytes on its control stream, and a client connection.
abbrev pub server_at : List ℕ → ServerConnection memory
server_at bytes = record { quic_conn = link []; control_send = fresh; control_recv = bytes }

abbrev pub client_at : List ℕ → ClientConnection memory
client_at bytes = record {
  quic_conn = link [];
  control_send = fresh;
  control_recv = bytes;
  endpoint = [];
}

abbrev pub ping : BxpRequest
ping = record { req_id = 100; action = BxpAction.ping; uri = codes "bxp://ping" }

abbrev pub lost : BxpRequest
lost = record { req_id = 101; action = BxpAction.fetch; uri = codes "bxp://no" }

abbrev pub pong : BxpResponse
pong = record { req_id = 100; status = BxpStatus.success }

abbrev pub whole : Bytes
whole = record { yields = 72 ∷ (105 ∷ []); fails = none }

abbrev pub broken : Bytes
broken = record { yields = 72 ∷ (105 ∷ []); fails = some 7 }

-- The status of every reply to `lost`.
abbrev pub absent : BxpResponse
absent = record { req_id = 101; status = BxpStatus.not_found }

abbrev pub ping_bytes : List ℕ
ping_bytes = frame (request_payload plain-IsCapnp ping)

abbrev pub pong_bytes : List ℕ
pong_bytes = frame (response_payload plain-IsCapnp pong)

pub ping-IsSendable : IsSendable plain-IsCapnp ping
unfolding wire
ping-IsSendable = record {
  id_fits = omega arith;
  is_text = record { scalars = omega arith; fits = omega arith };
  small = omega arith;
}

pub lost-IsSendable : IsSendable plain-IsCapnp lost
unfolding wire
lost-IsSendable = record {
  id_fits = omega arith;
  is_text = record { scalars = omega arith; fits = omega arith };
  small = omega arith;
}

pub pong-IsReply : IsReply plain-IsCapnp pong
unfolding wire
pong-IsReply = record { id_fits = omega arith; small = omega arith }

pub absent-IsReply : IsReply plain-IsCapnp absent
unfolding wire
absent-IsReply = record { id_fits = omega arith; small = omega arith }

abbrev pub script : List BxpRequest
script = ping ∷ (lost ∷ [])

pub script-AllServable : AllServable plain-IsCapnp (ping_status (codes "bxp://ping")) script
unfolding ping_status action_eq str_eq
script-AllServable = (ping-IsSendable, pong-IsReply, (lost-IsSendable, absent-IsReply, tt))
