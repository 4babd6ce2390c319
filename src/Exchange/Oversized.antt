-- ===== src/Exchange/Oversized.antt =====
-- Messages above 1 MB at both ends (spec/spec.md, 4.1 and 7).
use bxp_core.Base.{ℕ, ◌<◌, ◌≡◌, List, ◌++◌, ok, err, length}
use bxp_core.Base.Bytes.{u32_mod, to_le_bytes}
use bxp_core.Capnp.{Capnp, IsCapnp}
use bxp_core.Client.{ClientConnection, decode_response, receive_response}
use bxp_core.Client.Receive.{receive_response-Receives}
use bxp_core.Exchange.Request.{request_payload, IsSendable, receive_request-frame}
use bxp_core.Frame.{frame}
use bxp_core.Frame.Reading.{next_frame-oversized, next_unlimited-frame}
use bxp_core.Protocol.{BxpRequest, too_large}
use bxp_core.Quic.{Quic, IsQuic}
use bxp_core.Server.{ServerConnection, max_control_msg, receive_request}
use bxp_core.Server.Receive.{receive_request-Receives, receive_request_passive}

module _ {q : Quic} {c : Capnp} (spec : IsQuic q) (codec : IsCapnp c) where
  -- If a header above 1 MB stands at the head of the control stream, and behind it bytes that look
  -- like the frame of a request that can be sent, `receive_request` reports the size and leaves
  -- the QUIC connection as it was, and the next call returns that request from the bytes behind
  -- the refused header.
  pub receive_request_oversized :
      (s : ServerConnection q) (len : ℕ) (r : BxpRequest) (rest : List ℕ)
      → max_control_msg < len
      → len < u32_mod
      → IsSendable codec r
      → spec.pending s.control_recv ≡ to_le_bytes len ++ (frame (request_payload codec r) ++ rest)
      → let (res, t) = receive_request q c s in
        (res ≡ err (too_large len))
        × (t.quic_conn ≡ s.quic_conn)
        × ((receive_request q c t).0 ≡ ok r)
        × (spec.pending (receive_request q c t).1.control_recv ≡ rest)
  receive_request_oversized s len r rest big fits h p =
      let body = frame (request_payload codec r) ++ rest in
      let (res, left) =
        rw (p, next_frame-oversized max_control_msg len body big fits) at
          (receive_request-Receives spec c s) in
      let (next, after) =
        receive_request-frame spec codec (receive_request q c s).1 r rest h left in
      (res, (receive_request_passive q c s).0, next, after)

module _ {q : Quic} (spec : IsQuic q) (c : Capnp) where
  -- Of a frame with any length below 2 ^ 32, above 1 MB too, `receive_response` of the client
  -- reads the whole message and returns what it decodes to, and what follows the frame stays
  -- pending.
  pub receive_response_unlimited :
      (s : ClientConnection q) (body rest : List ℕ)
      → length body < u32_mod
      → spec.pending s.control_recv ≡ frame body ++ rest
      → ((receive_response q c s).0 ≡ decode_response c body)
        × (spec.pending (receive_response q c s).1.control_recv ≡ rest)
  receive_response_unlimited s body rest fits p =
      rw (p, next_unlimited-frame body rest fits) at (receive_response-Receives spec c s)
