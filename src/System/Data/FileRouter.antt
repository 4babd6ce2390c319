-- ===== src/System/Data/FileRouter.antt =====
-- The router of `test_data_stream_transfer` and of examples/file-transfer.rs sends data streams by
-- a policy: the payload for each fetch of its URI, and nothing for any other request.
use bxp_core.Base.{
  ℕ, ◌≡◌, ◌∙◌, ap, ◌&&◌, inl, inr, none, List, [], ◌∷◌, append-nil, Bool-cases, sym, if◌then◌else◌,
}
use bxp_core.Base.Str.{Str, str_eq}
use bxp_core.Capnp.{Capnp, IsCapnp}
use bxp_core.Exchange.Response.{IsReply}
use bxp_core.Exchange.Streams.{tagged}
use bxp_core.Protocol.{BxpAction, BxpRequest, BxpStatus, action_eq}
use bxp_core.Quic.{Quic, IsQuic}
use bxp_core.Router.{new, route}
use bxp_core.Router.Dispatch.{handle_request-some, handle_request_missing}
use bxp_core.Session.{file_router, handle_file_transfer}
use bxp_core.Session.Handlers.{handle_file_transfer_lem}
use bxp_core.Session.Route.{route_status, find-one}
use bxp_core.System.Data.Invariant.{Streams}

abbrev pub file_payloads : Str → List ℕ → BxpRequest → List (List ℕ)
file_payloads uri payload r =
    if action_eq BxpAction.fetch r.action && str_eq uri r.uri then payload ∷ [] else []

module _ {q : Quic} {c : Capnp} (spec : IsQuic q) (codec : IsCapnp c) where
  -- So it does, if the payload is read to its end.
  pub file_router-Streams :
      (uri : Str) (payload : q.Source)
      → spec.fails payload ≡ none
      → Streams spec codec
          (file_router q c uri payload)
          (route_status BxpAction.fetch uri)
          (file_payloads uri (spec.yields payload))
  unfolding route_status file_router tagged
  file_router-Streams uri payload whole r s k (up, open_) live =
      let h = handle_file_transfer q c payload in
      let found = find-one spec codec BxpAction.fetch r.action uri r.uri h in
      elim (Bool-cases (action_eq BxpAction.fetch r.action && str_eq uri r.uri)) [
        | inl hit ↦
            let k' : IsReply codec (record { req_id = r.req_id; status = BxpStatus.success }) =
              rw hit at k in
            let (res, wrote, delivered, inbox, still, live') =
              handle_file_transfer_lem spec codec r payload s k' (up, open_) live whole in
            rw (handle_request-some c (route BxpAction.fetch uri h new) r h s (found ∙ rw hit), hit)
              (delivered, live')
        | inr miss ↦
            let k' : IsReply codec (record { req_id = r.req_id; status = BxpStatus.not_found }) =
              rw miss at k in
            let (res, wrote, up', open', inbox, conn) =
              handle_request_missing spec codec (route BxpAction.fetch uri h new) r s
                (found ∙ rw miss) k' up open_ in
            rw miss (ap spec.delivered conn ∙ sym (append-nil _), ap spec.alive conn ∙ live)
      ]
