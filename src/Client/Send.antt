-- ===== src/Client/Send.antt =====
-- `send_request` of src/client.rs on any connection.
use bxp_core.Base.{◌≡◌, arith}
use bxp_core.Capnp.{Capnp}
use bxp_core.Client.{ClientConnection, send_request}
use bxp_core.Protocol.{BxpRequest}
use bxp_core.Quic.{Quic}

-- Whether it succeeds or not, it reads nothing.
pub send_request_keeps_inbox :
    (q : Quic) (c : Capnp) (r : BxpRequest) (s : ClientConnection q)
    → (send_request q c r.req_id r.action r.uri s).1.control_recv ≡ s.control_recv
unfolding send_request
send_request_keeps_inbox q c r s = ground arith

pub send_request_keeps_conn :
    (q : Quic) (c : Capnp) (r : BxpRequest) (s : ClientConnection q)
    → (send_request q c r.req_id r.action r.uri s).1.quic_conn ≡ s.quic_conn
unfolding send_request
send_request_keeps_conn q c r s = ground arith
