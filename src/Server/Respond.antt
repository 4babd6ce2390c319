-- ===== src/Server/Respond.antt =====
-- What `send_response` of src/server.rs leaves alone, whatever becomes of the write.
use bxp_core.Base.{ℕ, ◌≡◌, arith}
use bxp_core.Capnp.{Capnp}
use bxp_core.Protocol.{BxpStatus}
use bxp_core.Quic.{Quic}
use bxp_core.Server.{ServerConnection, send_response}

pub send_response-keeps :
    (q : Quic) (c : Capnp) (req_id : ℕ) (status : BxpStatus) (s : ServerConnection q)
    → ((send_response q c req_id status s).1.control_recv ≡ s.control_recv)
      × ((send_response q c req_id status s).1.quic_conn ≡ s.quic_conn)
unfolding send_response
send_response-keeps q c req_id status s = ground arith
