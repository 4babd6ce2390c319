-- ===== src/Session/Benchmark/Measured.antt =====
-- The whole program examples/benchmark.rs.
use bxp_core.Base.{
  ℕ, zero, suc, ◌+◌, ◌≤◌, length-append, get_elem?-IsSome, ◌<◌, ◌≡◌, refl, ◌∙◌, ap, sym, List, [],
  ◌∷◌, ◌++◌, append-nil, append_assoc, length, some, Result, ◌-◌, ◌*◌, ◌/◌, arith, ok,
}
use bxp_core.Base.Str.{codes}
use bxp_core.Capnp.{Capnp, IsCapnp}
use bxp_core.Client
use bxp_core.Client.{ClientConnection, send_request, receive_response}
use bxp_core.Client.Receive.{receive_response_passive}
use bxp_core.Exchange.Request.{request_payload, send_request-frame}
use bxp_core.Exchange.Response.{receive_response-frame}
use bxp_core.Exchange.Script.{request_frames, reply, reply_frames, AllServable, IsReady}
use bxp_core.Frame.{frame}
use bxp_core.Protocol.{BxpAction, BxpRequest, BxpStatus, Error}
use bxp_core.Quic.{Quic, IsQuic}
use bxp_core.Server.{ServerConnection}
use bxp_core.Session.{serve, ping_router}
use bxp_core.Session.Benchmark.Sent.{
  benchmark_loop-step, sent_from, sent_from-prefix, sent_from-all, written-measured,
  pings-AllServable,
}
use bxp_core.Session.Benchmark.Library.{Std, IsStd, get_elem?_monotone}
use bxp_core.Session.Handlers.{ping_status, ping_router-Answers}
use bxp_core.Session.Replies.{output}
use bxp_core.Session.Serving.{IsOpen, serve-request_frames}
use bxp_core.Session.Benchmark.{
  ping_at, pings, length-pings, benchmark_router, benchmark_router-ping_router, Report, Ending,
  benchmark_loop, measured, percentile, evaluated, benchmark_client,
}

module _ {q : Quic} {c : Capnp} (spec : IsQuic q) (codec : IsCapnp c) (std : Std) where
  -- If the stream brings the responses to the requests, whatever their status, the loop goes
  -- through: it returns one latency more for each request, it has sent exactly the requests, and
  -- it has read exactly the responses.
  pub benchmark_loop-reply_frames :
      (status : BxpRequest → BxpStatus) (n i : ℕ) (ls : List ℕ) (s : ClientConnection q)
      (t : std.Clock)
      → AllServable codec status (pings i n)
      → IsReady spec codec s
      → spec.pending s.control_recv ≡ reply_frames codec status (pings i n)
      → let (res, (u, _)) = benchmark_loop q c std i n ls (s, t) in
        (latencies : List ℕ) × (res ≡ ok latencies)
        × (length latencies ≡ length ls + n)
        × (spec.written u.control_send
            ≡ spec.written s.control_send ++ request_frames codec (pings i n))
        × (spec.pending u.control_recv ≡ [])
  unfolding benchmark_loop request_frames reply_frames
  benchmark_loop-reply_frames status zero i ls s t h up p =
      (ls, refl, omega arith, sym (append-nil _), p)
  benchmark_loop-reply_frames status (suc n) i ls s t (sendable, replied, more) (up, open_) p =
      let r = ping_at i in
      let rs = pings (suc i) n in
      let v = (send_request q c i BxpAction.ping (codes "bxp://benchmark") s).1 in
      let (res, wrote, up', open', inbox, conn) =
        send_request-frame spec codec s r up open_ (omega (arith, sendable.small)) in
      let (got, left) =
        receive_response-frame spec codec v (reply status r) (reply_frames codec status rs) replied
          (ap spec.pending inbox ∙ p) in
      let u = (receive_response q c v).1 in
      let (_, same, _) = receive_response_passive q c v in
      let next = (std.now t).1 in
      let elapsed = (std.now next).0 - (std.now t).0 in
      let (latencies, done, size, sent, empty) =
        benchmark_loop-reply_frames status n (suc i) (ls ++ (elapsed ∷ [])) u (std.now next).1 more
          (rw same (up', open')) left in
      rw (benchmark_loop-step spec codec std i n ls s t res got) (
        latencies,
        done,
        omega (arith, size, length-append ls (elapsed ∷ [])),
        rw (sent, same, wrote)
            (append_assoc {0} (spec.written s.control_send) (frame (request_payload codec r))
              (request_frames codec rs)),
        empty,
      )

  measured-ok :
      (n : ℕ) (s : ClientConnection q) (t : std.Clock) (latencies : List ℕ)
      → (benchmark_loop q c std 0 n [] (s, (std.now t).1)).0 ≡ ok latencies
      → (total_time : ℕ) × ((measured q c std n (s, t)).0 ≡ ok (total_time, std.sort latencies))
  unfolding measured
  measured-ok n s t latencies done = rw (done, measured) (_, refl)

module _ {q : Quic} (c : Capnp) (spec : IsQuic q) {std : Std} (laws : IsStd std) where
  -- As many sorted latencies as requests are enough for every percentile.
  evaluated-reported :
      (n total_time : ℕ) (latencies : List ℕ)
      (p : Result Error (ℕ × List ℕ) × (ClientConnection q × std.Clock))
      → 0 < n
      → length latencies ≡ n
      → p.0 ≡ ok (total_time, std.sort latencies)
      → (r : Report) × ((evaluated q c std n p).0 ≡ Ending.reported r)
        × (r.p50 ≤ r.p90)
        × (r.p90 ≤ r.p99)
        × (spec.closed_with (evaluated q c std n p).1.0 ≡ some (0, codes "Done"))
  unfolding percentile Client.close
  evaluated-reported n total_time latencies (o, (s, t)) some_ size e =
      let ls = std.sort latencies in
      let long = laws.length-sort latencies in
      let (p50, at50) = get_elem?-IsSome ls (n * 50 / 100) (omega (arith, long, size, some_)) in
      let (p90, at90) = get_elem?-IsSome ls (n * 90 / 100) (omega (arith, long, size, some_)) in
      let (p99, at99) = get_elem?-IsSome ls (n * 99 / 100) (omega (arith, long, size, some_)) in
      rw (e, at50, at90, at99)
        (
          record { total_time = total_time; p50 = p50; p90 = p90; p99 = p99 },
          refl,
          get_elem?_monotone ls (n * 50 / 100) (n * 90 / 100) (laws.sort-IsSorted latencies) at50
              at90 (omega arith),
          get_elem?_monotone ls (n * 90 / 100) (n * 99 / 100) (laws.sort-IsSorted latencies) at90
              at99 (omega arith),
          spec.close-records 0 (codes "Done") s.quic_conn,
        )

module _ {q : Quic} {c : Capnp} (spec : IsQuic q) (codec : IsCapnp c) where
  -- What the server comes to that has read the first `m` pings.
  pub served_pings :
      (m rounds : ℕ) (server : ServerConnection q)
      → AllServable codec (ping_status (codes "bxp://benchmark")) (pings 0 m)
      → IsOpen spec server
      → spec.written server.control_send ≡ []
      → spec.pending server.control_recv ≡ request_frames codec (pings 0 m)
      → m < rounds
      → output spec codec (serve q c rounds (benchmark_router q c) server)
        ≡ reply_frames codec (ping_status (codes "bxp://benchmark")) (pings 0 m)
  served_pings m rounds server h open_ none_written arrived enough =
      let uri = codes "bxp://benchmark" in
      let (_, done, wrote, left) =
        serve-request_frames spec codec rounds (ping_router q c uri) (ping_status uri) (pings 0 m)
          server (ping_router-Answers spec codec uri) h open_ arrived
          (omega (arith, length-pings 0 m)) in
      ap (λ r. output spec codec (serve q c rounds r server)) (benchmark_router-ping_router q c)
      ∙ ap (output spec codec) done
      ∙ wrote
      ∙ ap (λ w. w ++ reply_frames codec (ping_status uri) (pings 0 m)) none_written

  -- Where each side reads what the other has written, the loop has not stopped before its end: all
  -- pings were sent, and all were answered.
  all_answered :
      (std : Std) (n rounds : ℕ) (client : ClientConnection q) (t : std.Clock)
      (server : ServerConnection q)
      → AllServable codec (ping_status (codes "bxp://benchmark")) (pings 0 n)
      → IsReady spec codec client
      → IsOpen spec server
      → spec.written client.control_send ≡ []
      → spec.written server.control_send ≡ []
      → spec.pending server.control_recv ≡ sent_from spec codec std 0 n [] client t
      → spec.pending client.control_recv
        ≡ output spec codec (serve q c rounds (benchmark_router q c) server)
      → n < rounds
      → (sent_from spec codec std 0 n [] client t ≡ request_frames codec (pings 0 n))
        × (spec.pending client.control_recv
            ≡ reply_frames codec (ping_status (codes "bxp://benchmark")) (pings 0 n))
  all_answered std n rounds client t server h ready open_ none_sent none_written arrived back
        enough =
      let status = ping_status (codes "bxp://benchmark") in
      let (m, few, sent) = sent_from-prefix spec codec std status n 0 [] client t h ready in
      let only = sent ∙ ap (λ w. w ++ request_frames codec (pings 0 m)) none_sent in
      let fed =
        back
        ∙ served_pings m rounds server (pings-AllServable codec status m n 0 few h) open_
            none_written (arrived ∙ only) (omega (arith, few, enough)) in
      let all = sent_from-all spec codec std status n m 0 [] client t h ready fed few sent in
      (rw all at only, rw all at fed)

module _ {q : Quic} {c : Capnp} (spec : IsQuic q) (codec : IsCapnp c) {std : Std}
    (laws : IsStd std) where
  -- The client and the server of the benchmark on new and open control streams, for any number `n`
  -- above 0 of pings that can be served: if the server reads exactly what the client has written
  -- when its loop has ended, with fuel for more than `n` rounds, and the client reads exactly what
  -- the server has written, then the client has written all `n` pings, no index of a percentile is
  -- out of range, the client reports latencies of which the 50th percentile is at most the 90th,
  -- and that at most the 99th, and it closes the connection with code 0 and the reason `Done`.
  pub benchmark_session :
      (n rounds : ℕ) (client : ClientConnection q) (t : std.Clock) (server : ServerConnection q)
      → 0 < n
      → AllServable codec (ping_status (codes "bxp://benchmark")) (pings 0 n)
      → IsReady spec codec client
      → IsOpen spec server
      → spec.written client.control_send ≡ []
      → spec.written server.control_send ≡ []
      → spec.pending server.control_recv
        ≡ spec.written (measured q c std n (client, t)).1.0.control_send
      → spec.pending client.control_recv
        ≡ output spec codec (serve q c rounds (benchmark_router q c) server)
      → n < rounds
      → (spec.written (measured q c std n (client, t)).1.0.control_send
          ≡ request_frames codec (pings 0 n))
        × (r : Report) × ((benchmark_client q c std n (client, t)).0 ≡ Ending.reported r)
        × (r.p50 ≤ r.p90)
        × (r.p90 ≤ r.p99)
        × (spec.closed_with (benchmark_client q c std n (client, t)).1.0 ≡ some (0, codes "Done"))
  unfolding benchmark_client
  benchmark_session n rounds client t server some_ h ready open_ none_sent none_written arrived back
        enough =
      let uri = codes "bxp://benchmark" in
      let (sent, fed) =
        all_answered spec codec std n rounds client (std.now t).1 server h ready open_ none_sent
          none_written (arrived ∙ written-measured spec codec std n client t) back enough in
      let (latencies, res, size, _, empty) =
        benchmark_loop-reply_frames spec codec std (ping_status uri) n 0 [] client (std.now t).1 h
          ready fed in
      let (total_time, all) = measured-ok spec codec std n client t latencies res in
      let (r, reported, low, high, closed) =
        evaluated-reported c spec laws n total_time latencies (measured q c std n (client, t)) some_
          (omega (arith, size)) all in
      (written-measured spec codec std n client t ∙ sent, r, reported, low, high, closed)
