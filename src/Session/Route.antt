-- ===== src/Session/Route.antt =====
-- A router with one route, whose handler answers `success`.
use bxp_core.Base.{◌≡◌, ◌∙◌, ◌&&◌, inl, inr, some, none, ◌++◌, Bool-cases, if◌then◌else◌}
use bxp_core.Base.Str.{Str, str_eq}
use bxp_core.Capnp.{Capnp, IsCapnp}
use bxp_core.Exchange.Response.{response_payload, IsReply}
use bxp_core.Frame.{frame}
use bxp_core.HashMap.{get}
use bxp_core.Protocol.{BxpAction, BxpRequest, BxpStatus, action_eq}
use bxp_core.Quic.{Quic, IsQuic}
use bxp_core.Router.{BxpHandler, new, route, find}
use bxp_core.Router.Dispatch.{handle_request-some, handle_request_missing}
use bxp_core.Router.Laws.{find-route}
use bxp_core.Server.{ServerConnection}
use bxp_core.Session.Serving.{Answers, IsOpen}

-- The status that is owed for a request by a router with this one route.
unfoldable pub route_status : BxpAction → Str → BxpRequest → BxpStatus
route_status action uri r =
    if action_eq action r.action && str_eq uri r.uri then BxpStatus.success else BxpStatus.not_found

module _ {q : Quic} {c : Capnp} (spec : IsQuic q) (codec : IsCapnp c) where
  -- The handler writes the response `success`, and neither closes nor reads the control stream.
  abbrev pub AnswersSuccess : BxpHandler q → Type 0
  AnswersSuccess h =
      (r : BxpRequest) (s : ServerConnection q)
      → IsReply codec (record { req_id = r.req_id; status = BxpStatus.success })
      → IsOpen spec s
      → (spec.written (h r s).1.control_send
          ≡ spec.written s.control_send
            ++ frame
                (response_payload codec (record { req_id = r.req_id; status = BxpStatus.success })))
        × IsOpen spec (h r s).1
        × ((h r s).1.control_recv ≡ s.control_recv)

  pub find-one :
      (action b : BxpAction) (uri w : Str) (h : BxpHandler q)
      → find (route action uri h new) b w
        ≡ (if action_eq action b && str_eq uri w then some h else none)
  unfolding new find get
  find-one action b uri w h = find-route new action b uri w h

  pub route-Answers :
      (action : BxpAction) (uri : Str) (h : BxpHandler q)
      → AnswersSuccess h
      → Answers spec codec (route action uri h new) (route_status action uri)
  unfolding route_status
  route-Answers action uri h answers r s k (up, open_) =
      let found = find-one action r.action uri r.uri h in
      elim (Bool-cases (action_eq action r.action && str_eq uri r.uri)) [
        | inl hit ↦
            let k' : IsReply codec (record { req_id = r.req_id; status = BxpStatus.success }) =
              rw hit at k in
            rw (handle_request-some c (route action uri h new) r h s (found ∙ rw hit), hit)
              (answers r s k' (up, open_))
        | inr miss ↦
            let k' : IsReply codec (record { req_id = r.req_id; status = BxpStatus.not_found }) =
              rw miss at k in
            let (res, wrote, up', open', inbox, conn) =
              handle_request_missing spec codec (route action uri h new) r s (found ∙ rw miss) k' up
                open_ in
            rw miss (wrote, (up', open'), inbox)
      ]
