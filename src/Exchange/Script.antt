-- ===== src/Exchange/Script.antt =====
-- Several requests on one control stream, and the responses that are owed for them.
use bxp_core.Base.{
  ℕ, zero, suc, ◌≡◌, refl, ap, ap₂, ◌∙◌, true, false, List, [], ◌∷◌, ◌++◌, append-nil, append_assoc,
  sym, Result, ok, length, arith,
}
use bxp_core.Capnp.{Capnp, IsCapnp}
use bxp_core.Exchange.Request.{request_payload, IsSendable, send_request-frame}
use bxp_core.Exchange.Response.{response_payload, IsReply, receive_response-frame}
use bxp_core.Frame.{frame}
use bxp_core.Client.{ClientConnection, send_request, receive_response}
use bxp_core.Protocol.{BxpRequest, BxpResponse, BxpStatus, Error}
use bxp_core.Quic.{Quic, IsQuic}

abbrev pub reply : (BxpRequest → BxpStatus) → BxpRequest → BxpResponse
reply status r = record { req_id = r.req_id; status = status r }

module _ {c : Capnp} (codec : IsCapnp c) where
  -- The frames of requests, and of the responses that a server with the policy `status` owes for
  -- them, in order.
  unfoldable pub request_frames : List BxpRequest → List ℕ
  request_frames [] = []
  request_frames (r ∷ rs) = frame (request_payload codec r) ++ request_frames rs

  unfoldable pub reply_frames : (BxpRequest → BxpStatus) → List BxpRequest → List ℕ
  reply_frames status [] = []
  reply_frames status (r ∷ rs) =
      frame (response_payload codec (reply status r)) ++ reply_frames status rs

  -- Every request of the list can be sent, and the response to it too.
  abbrev pub AllServable : (BxpRequest → BxpStatus) → List BxpRequest → Type 0
  AllServable status [] = Unit
  AllServable status (r ∷ rs) =
      IsSendable codec r × IsReply codec (reply status r) × AllServable status rs

-- What a client does that sends all its requests and then receives as many responses.
module _ (q : Quic) (c : Capnp) where
  unfoldable pub send_all : List BxpRequest → ClientConnection q → ClientConnection q
  send_all [] s = s
  send_all (r ∷ rs) s = send_all rs (send_request q c r.req_id r.action r.uri s).1

  unfoldable pub receive_all : ℕ → ClientConnection q → List (Result Error BxpResponse)
  receive_all zero s = []
  receive_all (suc n) s = (receive_response q c s).0 ∷ receive_all n (receive_response q c s).1

abbrev pub replies : (BxpRequest → BxpStatus) → List BxpRequest → List (Result Error BxpResponse)
replies status [] = []
replies status (r ∷ rs) = ok (reply status r) ∷ replies status rs

module _ {q : Quic} {c : Capnp} (spec : IsQuic q) (codec : IsCapnp c) where
  -- The sending side of a client's control stream is open.
  abbrev pub IsReady : ClientConnection q → Type 0
  IsReady s = (spec.healthy s.control_send ≡ true) × (spec.finished s.control_send ≡ false)

  pub written-send_all :
      (status : BxpRequest → BxpStatus) (rs : List BxpRequest) (s : ClientConnection q)
      → AllServable codec status rs
      → IsReady s
      → spec.written (send_all q c rs s).control_send
        ≡ spec.written s.control_send ++ request_frames codec rs
  unfolding send_all request_frames
  written-send_all status [] s h up = sym (append-nil _)
  written-send_all status (r ∷ rs) s (sendable, _, more) (up, open_) =
      let t = (send_request q c r.req_id r.action r.uri s).1 in
      let (res, wrote, up', open', inbox, conn) =
        send_request-frame spec codec s r up open_ (omega (arith, sendable.small)) in
      written-send_all status rs t more (up', open')
      ∙ ap (λ w. w ++ request_frames codec rs) wrote
      ∙ append_assoc {0} (spec.written s.control_send) (frame (request_payload codec r))
          (request_frames codec rs)

  pub receive_all-reply_frames :
      (status : BxpRequest → BxpStatus) (rs : List BxpRequest) (s : ClientConnection q)
      → AllServable codec status rs
      → spec.pending s.control_recv ≡ reply_frames codec status rs
      → receive_all q c (length rs) s ≡ replies status rs
  unfolding receive_all reply_frames
  receive_all-reply_frames status [] s h p = refl
  receive_all-reply_frames status (r ∷ rs) s (_, h, more) p =
      let (res, left) =
        receive_response-frame spec codec s (reply status r) (reply_frames codec status rs) h p in
      ap₂ ◌∷◌ res (receive_all-reply_frames status rs (receive_response q c s).1 more left)
