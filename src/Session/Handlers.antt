-- ===== src/Session/Handlers.antt =====
-- What the handlers of tests/integration.rs and examples/ do to a connection.
use bxp_core.Base.{
  ◌≡◌, ◌∙◌, true, ◌&&◌, inl, inr, some, none, [], ◌∷◌, ◌++◌, ok, Option-cases, ap, lift, ◌>>◌,
  >>=-ok, >>-return, Bool-cases, if◌then◌else◌,
}
use bxp_core.Base.Bytes.{to_le_bytes}
use bxp_core.Base.Str.{Str, str_eq}
use bxp_core.Capnp.{Capnp, IsCapnp}
use bxp_core.Exchange.Response.{response_payload, IsReply, send_response-frame}
use bxp_core.Server.Respond.{send_response-keeps}
use bxp_core.Frame.{frame}
use bxp_core.HashMap.{get}
use bxp_core.Protocol.{BxpAction, BxpRequest, BxpStatus, action_eq}
use bxp_core.Quic.{Quic, IsQuic}
use bxp_core.Router.{new, find}
use bxp_core.Router.Dispatch.{handle_request-some, handle_request-none}
use bxp_core.Router.Laws.{find-route}
use bxp_core.Server.{ServerConnection, send_response, send_data_stream}
use bxp_core.Session.{handle_ping, handle_file_transfer, ping_router, file_router}
use bxp_core.Session.Route.{AnswersSuccess, route_status, route-Answers}
use bxp_core.Session.Serving.{Answers, IsOpen, KeepsInbox}
use bxp_core.Stream.Transfer.{send_on_complete}

-- The status that the router with a ping handler at this URI owes: success for a ping of exactly
-- the URI, `not_found` for all else.
unfoldable pub ping_status : Str → BxpRequest → BxpStatus
ping_status uri r =
    if action_eq BxpAction.ping r.action && str_eq uri r.uri
    then BxpStatus.success
    else BxpStatus.not_found

module _ (q : Quic) (c : Capnp) where
  find-ping_router :
      (uri : Str) (b : BxpAction) (w : Str)
      → find (ping_router q c uri) b w
        ≡ (if action_eq BxpAction.ping b && str_eq uri w then some (handle_ping q c) else none)
  unfolding ping_router new find get
  find-ping_router uri b w = find-route new BxpAction.ping b uri w (handle_ping q c)

  -- `handle_ping` is `send_response` with success.
  handle_ping_lem :
      (r : BxpRequest) (s : ServerConnection q)
      → handle_ping q c r s ≡ send_response q c r.req_id BxpStatus.success s
  unfolding handle_ping
  handle_ping_lem r s = >>-return (send_response q c r.req_id BxpStatus.success) s

  -- No handler of this router reads, and neither does the reply to a missing route.
  pub ping_router-KeepsInbox : (uri : Str) → KeepsInbox {q = q} c (ping_router q c uri)
  ping_router-KeepsInbox uri r s = elim (Option-cases (find (ping_router q c uri) r.action r.uri)) [
    | inl missing ↦
        rw (handle_request-none c (ping_router q c uri) r s missing)
          (send_response-keeps q c r.req_id BxpStatus.not_found s).0
    | inr (h, found) ↦ elim (Bool-cases (action_eq BxpAction.ping r.action && str_eq uri r.uri)) [
      | inl hit ↦
          rw
            (
              handle_request-some c (ping_router q c uri) r (handle_ping q c) s
                  (find-ping_router uri r.action r.uri ∙ rw hit),
              handle_ping_lem r s,
            )
            (send_response-keeps q c r.req_id BxpStatus.success s).0
      | inr miss ↦ cc (
        find-ping_router uri r.action r.uri,
        ap (λ b. if b then some (handle_ping q c) else none) miss,
      )
    ]
  ]

module _ {q : Quic} {c : Capnp} (spec : IsQuic q) (codec : IsCapnp c) where
  handle_ping-AnswersSuccess : AnswersSuccess spec codec (handle_ping q c)
  handle_ping-AnswersSuccess r s h (up, open_) =
      let (res, wrote, up', open', inbox, conn) =
        send_response-frame spec codec s (record { req_id = r.req_id; status = BxpStatus.success })
          h up open_ in
      rw (handle_ping_lem q c r s) (wrote, (up', open'), inbox)

  -- The router with a ping handler answers a ping of its URI by `success` and all else by
  -- `not_found`, each with one frame.
  pub ping_router-Answers : (uri : Str) → Answers spec codec (ping_router q c uri) (ping_status uri)
  unfolding ping_status route_status ping_router
  ping_router-Answers uri =
      route-Answers spec codec BxpAction.ping uri (handle_ping q c) handle_ping-AnswersSuccess

  pub file_transfer_step :
      (r : BxpRequest) (payload : q.Source) (s : ServerConnection q)
      → (send_response q c r.req_id BxpStatus.success s).0 ≡ ok tt
      → handle_file_transfer q c payload r s
        ≡ send_data_stream q r.req_id payload (send_response q c r.req_id BxpStatus.success s).1
  unfolding handle_file_transfer
  file_transfer_step r payload s sent =
      >>=-ok (send_response q c r.req_id BxpStatus.success)
        (λ _. send_data_stream q r.req_id payload >> lift (ok tt)) s tt sent
      ∙ >>-return (send_data_stream q r.req_id payload)
          (send_response q c r.req_id BxpStatus.success s).1

  -- The response is written, whether the data stream goes through or not.
  pub handle_file_transfer-AnswersSuccess :
      (payload : q.Source) → AnswersSuccess spec codec (handle_file_transfer q c payload)
  unfolding send_data_stream
  handle_file_transfer-AnswersSuccess payload r s h (up, open_) =
      let (res, wrote, up', open', inbox, conn) =
        send_response-frame spec codec s (record { req_id = r.req_id; status = BxpStatus.success })
          h up open_ in
      rw (file_transfer_step r payload s res) (wrote, (up', open'), inbox)

  -- The router with a file transfer answers a fetch of its URI by `success` and all else by
  -- `not_found`, each with one frame on the control stream.
  pub file_router-Answers :
      (uri : Str) (payload : q.Source)
      → Answers spec codec (file_router q c uri payload) (route_status BxpAction.fetch uri)
  unfolding file_router
  file_router-Answers uri payload =
      route-Answers spec codec BxpAction.fetch uri (handle_file_transfer q c payload)
        (handle_file_transfer-AnswersSuccess payload)

  -- On a live connection with an open control stream, for a request whose response can be sent,
  -- and with a source that is read to its end, `handle_file_transfer` succeeds: it appends one
  -- frame to the control stream, the response `success` with the request's id, and the client gets
  -- one more data stream, the request id and then the payload. It reads nothing, and the control
  -- stream stays open and the connection live.
  pub handle_file_transfer_lem :
      (r : BxpRequest) (payload : q.Source) (s : ServerConnection q)
      → IsReply codec (record { req_id = r.req_id; status = BxpStatus.success })
      → IsOpen spec s
      → spec.alive s.quic_conn ≡ true
      → spec.fails payload ≡ none
      → let (res, t) = handle_file_transfer q c payload r s in
        (res ≡ ok tt)
        × (spec.written t.control_send
            ≡ spec.written s.control_send
              ++ frame (
                  response_payload codec
                    (record { req_id = r.req_id; status = BxpStatus.success })))
        × (spec.delivered t.quic_conn
            ≡ spec.delivered s.quic_conn ++ ((to_le_bytes r.req_id ++ spec.yields payload) ∷ []))
        × (t.control_recv ≡ s.control_recv)
        × IsOpen spec t
        × (spec.alive t.quic_conn ≡ true)
  unfolding send_data_stream
  handle_file_transfer_lem r payload s h (up, open_) live whole =
      let (res, wrote, up', open', inbox, conn) =
        send_response-frame spec codec s (record { req_id = r.req_id; status = BxpStatus.success })
          h up open_ in
      let t = (send_response q c r.req_id BxpStatus.success s).1 in
      let (sent, delivered, still, inc) =
        send_on_complete spec r.req_id payload t.quic_conn (rw conn live) whole in
      rw (file_transfer_step r payload s res) (
        sent,
        wrote,
        delivered
            ∙ ap (λ k. spec.delivered k ++ ((to_le_bytes r.req_id ++ spec.yields payload) ∷ []))
                conn,
        inbox,
        (up', open'),
        still,
      )
