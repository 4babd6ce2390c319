-- ===== src/Session/Health.antt =====
-- The program examples/basic-router.rs: a server with one route, and a client that asks whether it
-- is healthy.
use bxp_core.Base.{
  ℕ, ◌<◌, ◌≡◌, ◌∙◌, refl, ap, Bool, true, false, Option, none, some, [], ◌∷◌, ◌++◌, arith, Result,
  ok, err, Method, lift, ◌>>=◌, ◌>>◌, >>=-ok, >>=-keeps, sym, append-nil,
}
use bxp_core.Base.Str.{codes, str_eq}
use bxp_core.Capnp.{Capnp, IsCapnp}
use bxp_core.Client
use bxp_core.Client.{ClientConnection, send_request, receive_response}
use bxp_core.Client.Receive.{receive_response_passive}
use bxp_core.Exchange.Request.{send_request-frame}
use bxp_core.Exchange.Response.{receive_response-frame}
use bxp_core.Exchange.Script.{request_frames, reply, reply_frames, AllServable, IsReady}
use bxp_core.Protocol.{BxpAction, BxpRequest, BxpResponse, BxpStatus, Error, action_eq}
use bxp_core.Quic.{Quic, IsQuic}
use bxp_core.Router.{BxpRouter}
use bxp_core.Server.{ServerConnection, wait_for_close}
use bxp_core.Session.{serve, ping_router, waiting}
use bxp_core.Session.Handlers.{ping_status, ping_router-Answers}
use bxp_core.Session.Replies.{output}
use bxp_core.Session.Serving.{IsOpen, serve-request_frames}

abbrev is_success : BxpStatus → Bool
is_success BxpStatus.success = true
is_success _ = false

module _ (q : Quic) (c : Capnp) where
  -- The handler is the same as that of the test.
  unfoldable pub health_router : BxpRouter q
  health_router = ping_router q c (codes "bxp://health")

  -- The task of one connection: the serving loop, and then the wait for the client's close.
  unfoldable pub connection_task : ℕ → ServerConnection q → Option (ServerConnection q)
  connection_task n s = waiting q (serve q c n health_router s)

  -- The requests of the client. The value says whether it reports that the server is healthy.
  unfoldable pub ask_health : Method Error (ClientConnection q) Bool
  ask_health = do
    send_request q c 1 BxpAction.ping (codes "bxp://health")
    res ← receive_response q c
    lift (ok (is_success res.status))

  abbrev closed_after :
      Result Error Bool × ClientConnection q → Result Error Bool × (q.Connection × q.Endpoint)
  closed_after (ok healthy, s) = (ok healthy, Client.close q s)
  closed_after (err e, s) = (err e, (s.quic_conn, s.endpoint))

  -- The client on an established connection; an error ends it without the close.
  unfoldable pub health_client :
      ClientConnection q → Result Error Bool × (q.Connection × q.Endpoint)
  health_client s = closed_after (ask_health s)

abbrev pub health_check : BxpRequest
health_check = record { req_id = 1; action = BxpAction.ping; uri = codes "bxp://health" }

module _ {q : Quic} {c : Capnp} (spec : IsQuic q) (codec : IsCapnp c) where
  -- Whatever comes back, what the client has written is its one request.
  pub written-ask_health :
      (s : ClientConnection q)
      → AllServable codec (ping_status (codes "bxp://health")) (health_check ∷ [])
      → IsReady spec codec s
      → spec.written (ask_health q c s).1.control_send
        ≡ spec.written s.control_send ++ request_frames codec (health_check ∷ [])
  unfolding ask_health request_frames
  written-ask_health s (sendable, _, _) (up, open_) =
      let (res, wrote, _, _, _, _) =
        send_request-frame spec codec s health_check up open_ (omega (arith, sendable.small)) in
      let rest : BxpResponse → Method Error (ClientConnection q) Bool =
        λ r. lift (ok (is_success r.status)) in
      let t = (send_request q c 1 BxpAction.ping (codes "bxp://health") s).1 in
      let (_, same, _) = receive_response_passive q c t in
      ap (λ x. spec.written x.1.control_send)
        (>>=-ok (send_request q c 1 BxpAction.ping (codes "bxp://health"))
          (λ _. receive_response q c >>= rest) s tt res)
      ∙ >>=-keeps (λ u. spec.written u.control_send) (receive_response q c) rest t (λ r u. refl)
      ∙ ap spec.written same
      ∙ wrote
      ∙ ap (λ w. spec.written s.control_send ++ w) (sym (append-nil _))

  output-waiting :
      (o : Option (ServerConnection q)) → output spec codec (waiting q o) ≡ output spec codec o
  unfolding wait_for_close
  output-waiting none = refl
  output-waiting (some s) = refl

  -- If the response `success` to the request is all that the control stream brings, the client
  -- reports that the server is healthy.
  ask_health_lem :
      (s : ClientConnection q)
      → AllServable codec (ping_status (codes "bxp://health")) (health_check ∷ [])
      → IsReady spec codec s
      → spec.pending s.control_recv
        ≡ reply_frames codec (ping_status (codes "bxp://health")) (health_check ∷ [])
      → (ask_health q c s).0 ≡ ok true
  unfolding ask_health reply_frames ping_status action_eq str_eq
  ask_health_lem s (sendable, replied, _) (up, open_) back =
      let uri = codes "bxp://health" in
      let done = reply (ping_status uri) health_check in
      let (res, wrote, up', open', inbox, conn) =
        send_request-frame spec codec s health_check up open_ (omega (arith, sendable.small)) in
      let t = (send_request q c 1 BxpAction.ping uri s).1 in
      let (got, left) =
        receive_response-frame spec codec t done [] replied (ap spec.pending inbox ∙ back) in
      ap (λ x. x.0)
        (>>=-ok (send_request q c 1 BxpAction.ping uri)
            (λ _. receive_response q c >>= λ r. lift (ok (is_success r.status))) s tt res
          ∙ >>=-ok (receive_response q c) (λ r. lift (ok (is_success r.status))) t done got)

  closed_after_lem :
      (p : Result Error Bool × ClientConnection q) {healthy : Bool}
      → p.0 ≡ ok healthy
      → ((closed_after q c p).0 ≡ ok healthy)
        × (spec.closed_with (closed_after q c p).1.0 ≡ some (0, codes "Done"))
  unfolding Client.close
  closed_after_lem (ok h, s) e = (e, spec.close-records 0 (codes "Done") s.quic_conn)
  closed_after_lem (err x, s) e = absurd (cc e)

  -- What the server's task comes to, and what it has written.
  pub connection_task-output :
      (rounds : ℕ) (server : ServerConnection q)
      → AllServable codec (ping_status (codes "bxp://health")) (health_check ∷ [])
      → IsOpen spec server
      → spec.written server.control_send ≡ []
      → spec.pending server.control_recv ≡ request_frames codec (health_check ∷ [])
      → 1 < rounds
      → ((t : ServerConnection q) × (connection_task q c rounds server ≡ some t))
        × (output spec codec (connection_task q c rounds server)
            ≡ reply_frames codec (ping_status (codes "bxp://health")) (health_check ∷ []))
  unfolding connection_task health_router
  connection_task-output rounds server h open_ none_written arrived enough =
      let uri = codes "bxp://health" in
      let (t, done, wrote, left) =
        serve-request_frames spec codec rounds (ping_router q c uri) (ping_status uri)
          (health_check ∷ []) server (ping_router-Answers spec codec uri) h open_ arrived enough in
      (
        (wait_for_close q t, ap (waiting q) done),
        output-waiting (serve q c rounds (ping_router q c uri) server)
            ∙ ap (output spec codec) done
            ∙ wrote
            ∙ ap (λ w. w ++ reply_frames codec (ping_status uri) (health_check ∷ [])) none_written,
      )

  -- The program from end to end, on new and open control streams and for a request that can be
  -- served: if the server's task reads exactly what the client has written when its requests are
  -- over, with fuel for more than one round, and the client reads exactly what the server has
  -- written, then the task ends, and the client reports that the server is healthy and closes the
  -- connection with code 0 and the reason `Done`.
  pub health_session :
      (rounds : ℕ) (client : ClientConnection q) (server : ServerConnection q)
      → AllServable codec (ping_status (codes "bxp://health")) (health_check ∷ [])
      → IsReady spec codec client
      → IsOpen spec server
      → spec.written client.control_send ≡ []
      → spec.written server.control_send ≡ []
      → spec.pending server.control_recv ≡ spec.written (ask_health q c client).1.control_send
      → spec.pending client.control_recv ≡ output spec codec (connection_task q c rounds server)
      → 1 < rounds
      → ((t : ServerConnection q) × (connection_task q c rounds server ≡ some t))
        × ((health_client q c client).0 ≡ ok true)
        × (spec.closed_with (health_client q c client).1.0 ≡ some (0, codes "Done"))
  unfolding health_client
  health_session rounds client server h ready open_ none_sent none_written arrived back enough =
      let sent =
        written-ask_health client h ready
        ∙ ap (λ w. w ++ request_frames codec (health_check ∷ [])) none_sent in
      let (ends, served) =
        connection_task-output rounds server h open_ none_written (arrived ∙ sent) enough in
      let asked = ask_health_lem client h ready (back ∙ served) in
      let (healthy, closed) = closed_after_lem (ask_health q c client) asked in
      (ends, healthy, closed)
