-- ===== src/Router/Dispatch.antt =====
-- `handle_request` of src/router.rs.
use bxp_core.Base.{
  ◌≡◌, ◌∙◌, inl, inr, true, false, Option, some, none, List, ◌++◌, ok, Method, >>-return,
  Option-cases,
}
use bxp_core.Base.Str.{Str}
use bxp_core.Capnp.{Capnp, IsCapnp}
use bxp_core.Exchange.Response.{IsReply, response_payload, send_response-frame}
use bxp_core.Frame.{frame}
use bxp_core.Protocol.{BxpAction, BxpRequest, BxpStatus, Error}
use bxp_core.Quic.{Quic, IsQuic}
use bxp_core.Router.{BxpHandler, BxpRouter, find, handle_request}
use bxp_core.Router.Laws.{build, newest, find-build}
use bxp_core.Server.{ServerConnection, send_response}

module _ {q : Quic} (c : Capnp) where
  pub handle_request-some :
      (r : BxpRouter q) (req : BxpRequest) (h : BxpHandler q) (s : ServerConnection q)
      → find r req.action req.uri ≡ some h
      → handle_request q c r req s ≡ h req s
  unfolding handle_request
  handle_request-some r req h s found = rw (found, handle_request) (>>-return (h req) s)

  pub handle_request-none :
      (r : BxpRouter q) (req : BxpRequest) (s : ServerConnection q)
      → find r req.action req.uri ≡ none
      → handle_request q c r req s ≡ send_response q c req.req_id BxpStatus.not_found s
  unfolding handle_request
  handle_request-none r req s missing =
      rw (missing, handle_request) (>>-return (send_response q c req.req_id BxpStatus.not_found) s)

  -- What is owed to a request by the handler that the registrations give for it.
  abbrev pub answer :
      Option (BxpHandler q) → BxpRequest → Method Error (ServerConnection q) (Unit {0})
  answer none req = send_response q c req.req_id BxpStatus.not_found
  answer (some h) req = h req

  -- Whatever was registered on a new router, `handle_request` does to the connection what the
  -- handler does that was registered last for exactly the request's action and URI, with its
  -- result, an error included; without such a registration it sends `not_found` with the request's
  -- id.
  pub handle_request-build :
      (regs : List (BxpAction × Str × BxpHandler q)) (req : BxpRequest) (s : ServerConnection q)
      → handle_request q c (build regs) req s ≡ answer (newest regs req.action req.uri) req s
  handle_request-build regs req s =
      let same = find-build regs req.action req.uri in
      elim (Option-cases (newest regs req.action req.uri)) [
        | inl none_found ↦
            rw none_found (handle_request-none (build regs) req s (same ∙ none_found))
        | inr (h, found) ↦ rw found (handle_request-some (build regs) req h s (same ∙ found))
      ]

module _ {q : Quic} {c : Capnp} (spec : IsQuic q) (codec : IsCapnp c) where
  -- Without a route for the request's action and URI, on an open control stream, and if the
  -- response to the request's id can be sent, `handle_request` succeeds, appends exactly one frame
  -- to the stream, the response `not_found` with the request's id, and changes nothing else: in
  -- particular it opens no data stream.
  pub handle_request_missing :
      (r : BxpRouter q) (req : BxpRequest) (s : ServerConnection q)
      → find r req.action req.uri ≡ none
      → IsReply codec (record { req_id = req.req_id; status = BxpStatus.not_found })
      → spec.healthy s.control_send ≡ true
      → spec.finished s.control_send ≡ false
      → let (res, t) = handle_request q c r req s in
        (res ≡ ok tt)
        × (spec.written t.control_send
            ≡ spec.written s.control_send
              ++ frame (
                  response_payload codec
                    (record { req_id = req.req_id; status = BxpStatus.not_found })))
        × (spec.healthy t.control_send ≡ true)
        × (spec.finished t.control_send ≡ false)
        × (t.control_recv ≡ s.control_recv)
        × (t.quic_conn ≡ s.quic_conn)
  handle_request_missing r req s missing h up open_ = rw (handle_request-none c r req s missing) (
      send_response-frame spec codec s
        (record { req_id = req.req_id; status = BxpStatus.not_found }) h up open_)
