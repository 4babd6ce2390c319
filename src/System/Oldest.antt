-- ===== src/System/Oldest.antt =====
-- What the two ends find on the control stream of a sound system: the oldest request that was not
-- served, and the oldest response that was not received.
use bxp_core.Base.{ℕ, ◌≡◌, refl, ap, sym, ◌∙◌, append-nil, List, [], ◌∷◌, ◌++◌, ok, arith}
use bxp_core.Client.{receive_response}
use bxp_core.Client.Receive.{receive_response-Receives}
use bxp_core.Exchange.Request.{request_payload, IsSendable, decode_request-payload}
use bxp_core.Exchange.Response.{response_payload, IsReply, decode_response-payload}
use bxp_core.Exchange.Script.{request_frames, reply, reply_frames, AllServable}
use bxp_core.Frame.Prefix.{
  IsFound, next_frame-nil, next_frame-frame_part, next_unlimited-nil, next_unlimited-frame_part,
}
use bxp_core.Frame.Reading.{
  message, next_frame, next_unlimited, next_frame-frame, next_unlimited-frame,
}
use bxp_core.Protocol.{BxpRequest}
use bxp_core.Server.{max_control_msg, receive_request}
use bxp_core.Server.Receive.{receive_request-Receives}
use bxp_core.System.{World, Parts}
use bxp_core.System.Invariant.{Inv}

module _ (p : Parts) (w : World p.q) where
  -- The server finds the request `oldest` of those that wait.
  pub record Asked (waiting : List BxpRequest) : Type 0 where
    pub oldest : BxpRequest
    pub others : List BxpRequest
    pub rest : List ℕ
    pub is_head : waiting ≡ oldest ∷ others
    pub found :
        next_frame max_control_msg (p.spec.pending w.server.control_recv)
        ≡ message (request_payload p.codec oldest) rest
    pub left : rest ++ w.up ≡ request_frames p.codec others
    pub sendable : IsSendable p.codec oldest
    pub replied : IsReply p.codec (reply p.status oldest)
    pub more : AllServable p.codec p.status others

  pub find_request :
      (waiting : List BxpRequest)
      → AllServable p.codec p.status waiting
      → p.spec.pending w.server.control_recv ++ w.up ≡ request_frames p.codec waiting
      → IsFound (next_frame max_control_msg (p.spec.pending w.server.control_recv))
      → Asked waiting
  unfolding request_frames
  find_request [] servable e h =
      absurd (next_frame-nil max_control_msg (p.spec.pending w.server.control_recv) w.up e h)
  find_request (r ∷ rs) (sendable, replied, more) e h =
      let (mid, found, left) =
        next_frame-frame_part max_control_msg (p.spec.pending w.server.control_recv) w.up
          (request_payload p.codec r) (request_frames p.codec rs) sendable.small
          (omega (arith, sendable.small)) e h in
      record {
        oldest = r;
        others = rs;
        rest = mid;
        is_head = refl;
        found = found;
        left = left;
        sendable = sendable;
        replied = replied;
        more = more;
      }

  pub find-Asked :
      (waiting : List BxpRequest) {done answered : List BxpRequest}
      → Inv p w done answered waiting
      → IsFound (next_frame max_control_msg (p.spec.pending w.server.control_recv))
      → Asked waiting
  find-Asked waiting inv = find_request waiting inv.servable inv.up

  -- Once all bytes have arrived, it finds it.
  pub all_asked :
      {r : BxpRequest} {rs done answered : List BxpRequest}
      → Inv p w done answered (r ∷ rs)
      → w.up ≡ []
      → next_frame max_control_msg (p.spec.pending w.server.control_recv)
        ≡ message (request_payload p.codec r) (request_frames p.codec rs)
  unfolding request_frames
  all_asked {r} {rs} inv none_up =
      let (sendable, replied, others) = inv.servable in
      ap (next_frame max_control_msg) (
        sym (append-nil (p.spec.pending w.server.control_recv))
        ∙ ap (λ x. p.spec.pending w.server.control_recv ++ x) (sym none_up)
        ∙ inv.up)
      ∙ next_frame-frame max_control_msg (request_payload p.codec r) (request_frames p.codec rs)
          sendable.small (omega (arith, sendable.small))

  -- So `receive_request` returns it.
  pub receive-Asked :
      {waiting : List BxpRequest} (h : Asked waiting)
      → ((receive_request p.q p.c w.server).0 ≡ ok h.oldest)
        × (p.spec.pending (receive_request p.q p.c w.server).1.control_recv ≡ h.rest)
  receive-Asked h =
      let (res, left) = rw h.found at (receive_request-Receives p.spec p.c w.server) in
      (res ∙ decode_request-payload p.codec h.oldest h.sendable, left)

  -- The client finds the response to the request `oldest` of those that were answered.
  pub record Answered (answered : List BxpRequest) : Type 0 where
    pub oldest : BxpRequest
    pub others : List BxpRequest
    pub rest : List ℕ
    pub is_head : answered ≡ oldest ∷ others
    pub found :
        next_unlimited (p.spec.pending w.client.control_recv)
        ≡ message (response_payload p.codec (reply p.status oldest)) rest
    pub left : rest ++ w.down ≡ reply_frames p.codec p.status others
    pub replied : IsReply p.codec (reply p.status oldest)
    pub more : AllServable p.codec p.status others

  pub find_response :
      (answered : List BxpRequest)
      → AllServable p.codec p.status answered
      → p.spec.pending w.client.control_recv ++ w.down ≡ reply_frames p.codec p.status answered
      → IsFound (next_unlimited (p.spec.pending w.client.control_recv))
      → Answered answered
  unfolding reply_frames
  find_response [] servable e h =
      absurd (next_unlimited-nil (p.spec.pending w.client.control_recv) w.down e h)
  find_response (r ∷ rs) (sendable, replied, more) e h =
      let (mid, found, left) =
        next_unlimited-frame_part (p.spec.pending w.client.control_recv) w.down
          (response_payload p.codec (reply p.status r)) (reply_frames p.codec p.status rs)
          (omega (arith, replied.small)) e h in
      record {
        oldest = r;
        others = rs;
        rest = mid;
        is_head = refl;
        found = found;
        left = left;
        replied = replied;
        more = more;
      }

  pub find-Answered :
      (answered : List BxpRequest) {done waiting : List BxpRequest}
      → Inv p w done answered waiting
      → IsFound (next_unlimited (p.spec.pending w.client.control_recv))
      → Answered answered
  find-Answered answered inv = find_response answered inv.replied inv.down

  -- Once all bytes have arrived, it finds it.
  pub all_answered :
      {r : BxpRequest} {rs done waiting : List BxpRequest}
      → Inv p w done (r ∷ rs) waiting
      → w.down ≡ []
      → IsFound (next_unlimited (p.spec.pending w.client.control_recv))
  unfolding reply_frames
  all_answered {r} {rs} inv none_down =
      let (sendable, replied, others) = inv.replied in
      rw
        (ap next_unlimited (
            sym (append-nil (p.spec.pending w.client.control_recv))
            ∙ ap (λ x. p.spec.pending w.client.control_recv ++ x) (sym none_down)
            ∙ inv.down)
          ∙ next_unlimited-frame (response_payload p.codec (reply p.status r))
              (reply_frames p.codec p.status rs) (omega (arith, replied.small)))
        tt

  -- So `receive_response` returns it.
  pub receive-Answered :
      {answered : List BxpRequest} (h : Answered answered)
      → ((receive_response p.q p.c w.client).0 ≡ ok (reply p.status h.oldest))
        × (p.spec.pending (receive_response p.q p.c w.client).1.control_recv ≡ h.rest)
  receive-Answered h =
      let (res, left) = rw h.found at (receive_response-Receives p.spec p.c w.client) in
      (res ∙ decode_response-payload p.codec (reply p.status h.oldest) h.replied, left)
