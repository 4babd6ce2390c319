-- ===== src/Session/Integration/Passes.antt =====
-- How the tests of tests/integration.rs end, with the feature `tls-insecure` and without.
use bxp_core.Base.{
  ℕ, ◌<◌, ◌≡◌, refl, ap, ◌∙◌, Bool, false, some, List, [], ◌∷◌, ◌++◌, Result, ok, err, arith,
}
use bxp_core.Base.Str.{Str, codes, str_eq}
use bxp_core.Capnp.{Capnp, IsCapnp}
use bxp_core.Client
use bxp_core.Client.{ClientConnection, send_request, receive_response}
use bxp_core.Client.Receive.{receive_response_passive}
use bxp_core.Exchange.Request.{IsSendable, send_request-frame}
use bxp_core.Exchange.Response.{IsReply, response_payload, receive_response-frame}
use bxp_core.Exchange.Script.{request_frames, reply_frames, AllServable, IsReady}
use bxp_core.Frame.{frame}
use bxp_core.Protocol.{BxpAction, BxpRequest, BxpStatus, cert_read, action_eq}
use bxp_core.Quic.{Quic, IsQuic}
use bxp_core.Server.{ServerConnection, accept, returned, wait_for_close}
use bxp_core.Session.{serve, ping_router}
use bxp_core.Session.Handlers.{ping_status, ping_router-Answers}
use bxp_core.Session.Integration.{
  Failure, closing, ping_script, spawn_test_server, test, test_router_ping_and_404,
  test_data_stream_transfer,
}
use bxp_core.Session.Benchmark.Library.{Std}
use bxp_core.Session.Programs.{
  health_main, movie_main, benchmark_main, bind_unreadable, main_needs_insecure,
}
use bxp_core.Session.Replies.{output}
use bxp_core.Session.Serving.{IsOpen, serve-request_frames}
use bxp_core.Setup.{bind, local_addr, connect}
use bxp_core.Setup.Net.{Net}

-- The requests of the test.
abbrev pub test_requests : List BxpRequest
test_requests =
    record { req_id = 100; action = BxpAction.ping; uri = codes "bxp://ping" }
    ∷ (record { req_id = 101; action = BxpAction.fetch; uri = codes "bxp://does-not-exist" } ∷ [])

module _ {q : Quic} {c : Capnp} (spec : IsQuic q) (codec : IsCapnp c) where
  -- One request and its response.
  record Asked (r : BxpRequest) (status : BxpStatus) (rest : List ℕ) (s : ClientConnection q)
      : Type 0 where
    sent : (send_request q c r.req_id r.action r.uri s).0 ≡ ok tt
    got :
        (receive_response q c (send_request q c r.req_id r.action r.uri s).1).0
        ≡ ok (record { req_id = r.req_id; status = status })
    ready :
        IsReady spec codec (receive_response q c (send_request q c r.req_id r.action r.uri s).1).1
    left :
        spec.pending
          (receive_response q c (send_request q c r.req_id r.action r.uri s).1).1.control_recv
        ≡ rest

  ask :
      (r : BxpRequest) (status : BxpStatus) (rest : List ℕ) (s : ClientConnection q)
      → IsSendable codec r
      → IsReply codec (record { req_id = r.req_id; status = status })
      → IsReady spec codec s
      → spec.pending s.control_recv
        ≡ frame (response_payload codec (record { req_id = r.req_id; status = status })) ++ rest
      → Asked r status rest s
  ask r status rest s sendable replied (up, open_) back =
      let (res, wrote, up', open', inbox, conn) =
        send_request-frame spec codec s r up open_ (omega (arith, sendable.small)) in
      let t = (send_request q c r.req_id r.action r.uri s).1 in
      let (got, left) =
        receive_response-frame spec codec t (record { req_id = r.req_id; status = status }) rest
          replied (ap spec.pending inbox ∙ back) in
      record {
        sent = res;
        got = got;
        ready = rw ((receive_response_passive q c t).1) (up', open');
        left = left;
      }

  ping_script_lem :
      (s : ClientConnection q)
      → AllServable codec (ping_status (codes "bxp://ping")) test_requests
      → IsReady spec codec s
      → spec.pending s.control_recv
        ≡ reply_frames codec (ping_status (codes "bxp://ping")) test_requests
      → (ping_script q c s).0 ≡ ok tt
  unfolding ping_script reply_frames ping_status action_eq str_eq
  ping_script_lem s (sendable, replied, (sendable2, replied2, _)) ready back =
      let first = ask _ BxpStatus.success _ s sendable replied ready back in
      let behind =
        (receive_response q c (send_request q c 100 BxpAction.ping (codes "bxp://ping") s).1).1 in
      let second = ask _ BxpStatus.not_found [] behind sendable2 replied2 first.ready first.left in
      rw (first.sent, first.got, second.sent, second.got) refl

  closing_lem :
      (x : Result Failure (Unit {0}) × ClientConnection q)
      → x.0 ≡ ok tt
      → ((closing q c x).0 ≡ ok tt)
        × (spec.closed_with (closing q c x).1.0 ≡ some (0, codes "Done"))
  unfolding Client.close
  closing_lem (ok done, s) e = (e, spec.close-records 0 (codes "Done") s.quic_conn)
  closing_lem (err f, s) e = absurd (cc e)

module _ {q : Quic} {c : Capnp} (n : Net q) (to_string : n.SocketAddr → Str) (spec : IsQuic q)
    (codec : IsCapnp c) where
  -- `test_router_ping_and_404` passes, if `bind`, `local_addr` and `connect` to the address that
  -- the server listens at succeed, the server accepts one connection, the control streams are open
  -- and new, and both requests of the test can be served: if the server's task has read the two
  -- requests and has fuel for more than two rounds, and the client reads what the server has
  -- written, then the client gets through all its calls and both assertions, closes the connection
  -- with code 0 and the reason `Done`, and the server's task ends.
  pub ping_test_passes :
      (rounds : ℕ) (insecure : Bool) (e : q.Endpoint) (addr : n.SocketAddr)
      (client : ClientConnection q) (server : ServerConnection q)
      → bind n insecure (codes "127.0.0.1:0") [] [] ≡ ok e
      → local_addr n e ≡ ok addr
      → connect n insecure (to_string addr) (codes "localhost") ≡ ok client
      → returned q (accept q e).0 ≡ some server
      → AllServable codec (ping_status (codes "bxp://ping")) test_requests
      → IsReady spec codec client
      → IsOpen spec server
      → spec.written server.control_send ≡ []
      → spec.pending server.control_recv ≡ request_frames codec test_requests
      → spec.pending client.control_recv
        ≡ output spec codec (serve q c rounds (ping_router q c (codes "bxp://ping")) server)
      → 2 < rounds
      → (t : ServerConnection q) × (r : Result Failure (Unit {0}) × (q.Connection × q.Endpoint))
        × (test_router_ping_and_404 n to_string c rounds insecure ≡ ok (some (some t), r))
        × (r.0 ≡ ok tt)
        × (spec.closed_with r.1.0 ≡ some (0, codes "Done"))
  unfolding test_router_ping_and_404 test spawn_test_server
  ping_test_passes rounds insecure e addr client server bound known dialled accepted h ready open_
        none_written arrived back enough =
      let uri = codes "bxp://ping" in
      let (t, done, wrote, _) =
        serve-request_frames spec codec rounds (ping_router q c uri) (ping_status uri) test_requests
          server (ping_router-Answers spec codec uri) h open_ arrived enough in
      let passed = ping_script_lem spec codec client h ready (
        back
        ∙ ap (output spec codec) done
        ∙ wrote
        ∙ ap (λ w. w ++ reply_frames codec (ping_status uri) test_requests) none_written) in
      let (ended, closed) = closing_lem spec codec (ping_script q c client) passed in
      (
        wait_for_close q t,
        closing q c (ping_script q c client),
        rw (bound, known, dialled, accepted, done) refl,
        ended,
        closed,
      )

module _ {q : Quic} (n : Net q) (to_string : n.SocketAddr → Str) where
  -- Without the feature `tls-insecure`, in a file system in which the empty path cannot be read,
  -- both tests end with the error of reading the certificate at the empty path, if the address of
  -- their server parses.
  tests_need_insecure :
      (c : Capnp) (rounds : ℕ) (payload : q.Source) (a : n.SocketAddr) (e : ℕ)
      → n.parse_addr (codes "127.0.0.1:0") ≡ ok a
      → n.read_file [] ≡ err e
      → (test_router_ping_and_404 n to_string c rounds false ≡ err (cert_read [] e))
        × (test_data_stream_transfer n to_string c rounds payload false ≡ err (cert_read [] e))
  unfolding test_router_ping_and_404 test_data_stream_transfer test spawn_test_server
  tests_need_insecure c rounds payload a e parsed unreadable =
      let failed = bind_unreadable n (codes "127.0.0.1:0") parsed unreadable in
      (rw failed refl, rw failed refl)

  -- Without the feature `tls-insecure`, in a file system in which the empty path cannot be read, and
  -- if the addresses in the sources parse, none of the three example programs and neither of the
  -- two tests gets as far as its client: each ends with the error of reading the certificate at the
  -- empty path, whatever else the network and the clock do.
  pub nothing_without_insecure :
      (c : Capnp) (accepts rounds : ℕ) (payload : q.Source) (std : Std) (num_requests : ℕ)
      (t : std.Clock) (a b d f : n.SocketAddr) (e : ℕ)
      → n.parse_addr (codes "127.0.0.1:4433") ≡ ok a
      → n.parse_addr (codes "127.0.0.1:4434") ≡ ok b
      → n.parse_addr (codes "127.0.0.1:4435") ≡ ok d
      → n.parse_addr (codes "127.0.0.1:0") ≡ ok f
      → n.read_file [] ≡ err e
      → (health_main n c accepts rounds false ≡ err (cert_read [] e))
        × (movie_main n c accepts rounds payload false ≡ err (cert_read [] e))
        × (benchmark_main n c accepts rounds std num_requests t false ≡ err (cert_read [] e))
        × (test_router_ping_and_404 n to_string c rounds false ≡ err (cert_read [] e))
        × (test_data_stream_transfer n to_string c rounds payload false ≡ err (cert_read [] e))
  nothing_without_insecure c accepts rounds payload std num_requests t a b d f e at_health at_movie
        at_benchmark at_test unreadable =
      let (health, movie, benchmark) =
        main_needs_insecure n c accepts rounds payload std num_requests t a b d e at_health at_movie
          at_benchmark unreadable in
      let (ping, transfer) = tests_need_insecure c rounds payload f e at_test unreadable in
      (health, movie, benchmark, ping, transfer)
