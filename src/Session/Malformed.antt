-- ===== src/Session/Malformed.antt =====
-- A message on the control stream that cannot be decoded (spec/spec.md, 7).
use bxp_core.Base.{ℕ, suc, ◌≤◌, ◌≡◌, some, List, ◌++◌, err, length, arith}
use bxp_core.Capnp.{Capnp}
use bxp_core.Frame.{frame}
use bxp_core.Frame.Reading.{next_frame-frame}
use bxp_core.Protocol.{Error}
use bxp_core.Quic.{Quic, IsQuic}
use bxp_core.Router.{BxpRouter}
use bxp_core.Server.{ServerConnection, max_control_msg, decode_request, receive_request}
use bxp_core.Server.Receive.{receive_request-Receives, receive_request_passive}
use bxp_core.Session.{serve, serve_round}

module _ {q : Quic} (spec : IsQuic q) (c : Capnp) where
  -- One message within the limit that cannot be decoded, an unknown action or a URI that is not
  -- UTF-8 for example, ends the serving loop: whatever follows it stays unread, no response is
  -- written, and the QUIC connection is left as it was.
  serve_malformed :
      (n : ℕ) (router : BxpRouter q) (s : ServerConnection q) (body rest : List ℕ) (e : Error)
      → length body ≤ max_control_msg
      → spec.pending s.control_recv ≡ frame body ++ rest
      → decode_request c body ≡ err e
      → (t : ServerConnection q) × (serve q c (suc n) router s ≡ some t)
        × (spec.pending t.control_recv ≡ rest)
        × (t.control_send ≡ s.control_send)
        × (t.quic_conn ≡ s.quic_conn)
  unfolding serve serve_round
  serve_malformed n router s body rest e small p bad =
      let (res, left) =
        rw (p, next_frame-frame max_control_msg body rest small (omega arith)) at
          (receive_request-Receives spec c s) in
      let (conn, send) = receive_request_passive q c s in
      ((receive_request q c s).1, rw (res, bad, serve_round), left, send, conn)
