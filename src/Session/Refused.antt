-- ===== src/Session/Refused.antt =====
-- The serving loop on a stream of requests with one message among them that it refuses
-- (spec/spec.md, 7).
use bxp_core.Base.{
  ℕ, zero, suc, ◌<◌, ◌≤◌, ◌≡◌, refl, ap, ◌∙◌, sym, ◌⊎◌, inl, inr, some, List, [], ◌∷◌, ◌++◌,
  append-nil, append_assoc, err, length, arith,
}
use bxp_core.Base.Bytes.{u32_mod, to_le_bytes}
use bxp_core.Capnp.{Capnp, IsCapnp}
use bxp_core.Client.{ClientConnection}
use bxp_core.Exchange.Request.{receive_request-frame}
use bxp_core.Exchange.Response.{response_payload}
use bxp_core.Exchange.Script.{
  request_frames, reply, reply_frames, AllServable, replies, receive_all, receive_all-reply_frames,
}
use bxp_core.Frame.{frame}
use bxp_core.Frame.Reading.{next_frame-frame, next_frame-oversized}
use bxp_core.Protocol.{BxpRequest, BxpStatus, Error}
use bxp_core.Quic.{Quic, IsQuic}
use bxp_core.Router.{BxpRouter, handle_request}
use bxp_core.Server.{ServerConnection, max_control_msg, decode_request, receive_request}
use bxp_core.Server.Receive.{receive_request-Receives, receive_request_passive}
use bxp_core.Session.{serve, serve_round}
use bxp_core.Session.Replies.{output}
use bxp_core.Session.Serving.{IsOpen, Answers}

-- The server does not take the message: it is above 1 MB, or it cannot be decoded.
abbrev pub IsRefused : Capnp → List ℕ → Type 0
IsRefused c body =
    (max_control_msg < length body)
    ⊎ ((length body ≤ max_control_msg) × (e : Error) × (decode_request c body ≡ err e))

-- One round for each request, and `m` more.
abbrev rounds : List BxpRequest → ℕ → ℕ
rounds [] m = m
rounds (r ∷ rs) m = suc (rounds rs m)

enough_rounds : (rs : List BxpRequest) (n : ℕ) → length rs < n → (m : ℕ) × (n ≡ rounds rs (suc m))
enough_rounds rs zero h = elim h [ ]
enough_rounds [] (suc n) h = (n, refl)
enough_rounds (r ∷ rs) (suc n) h =
    let (m, e) = enough_rounds rs n (omega (arith, h)) in (m, ap suc e)

module _ {q : Quic} {c : Capnp} (spec : IsQuic q) (codec : IsCapnp c) where
  -- The loop behind the requests that it could serve.
  record Through (router : BxpRouter q) (status : BxpRequest → BxpStatus) (rs : List BxpRequest)
      (rest : List ℕ) (m : ℕ) (s : ServerConnection q) : Type 0 where
    behind : ServerConnection q
    goes_on : serve q c (rounds rs m) router s ≡ serve q c m router behind
    wrote :
        spec.written behind.control_send
        ≡ spec.written s.control_send ++ reply_frames codec status rs
    left : spec.pending behind.control_recv ≡ rest

  serve-Through :
      (m : ℕ) (router : BxpRouter q) (status : BxpRequest → BxpStatus) (rs : List BxpRequest)
      (rest : List ℕ) (s : ServerConnection q)
      → Answers spec codec router status
      → AllServable codec status rs
      → IsOpen spec s
      → spec.pending s.control_recv ≡ request_frames codec rs ++ rest
      → Through router status rs rest m s
  unfolding serve serve_round request_frames reply_frames
  serve-Through m router status [] rest s answers h open_ p = record {
    behind = s;
    goes_on = refl;
    wrote = sym (append-nil _);
    left = p;
  }
  serve-Through m router status (r ∷ rs) rest s answers (sendable, replied, more) open_ p =
      let (got, after) =
        receive_request-frame spec codec s r (request_frames codec rs ++ rest) sendable
          (p ∙ append_assoc {0} _ (request_frames codec rs) rest) in
      let t = (receive_request q c s).1 in
      let same = (receive_request_passive q c s).1 in
      let (wrote, still, inbox) = answers r t replied (rw same open_) in
      let u = (handle_request q c router r t).1 in
      let h =
        serve-Through m router status rs rest u answers more still
          (ap spec.pending inbox ∙ after) in
      record {
        behind = h.behind;
        goes_on = rw (got, serve_round) h.goes_on;
        wrote =
            rw (h.wrote, wrote, same)
              (append_assoc {0} (spec.written s.control_send)
                (frame (response_payload codec (reply status r))) (reply_frames codec status rs));
        left = h.left;
      }

  -- Where the loop ends at a message that is refused.
  record Ended (router : BxpRouter q) (more : List ℕ) (m : ℕ) (s : ServerConnection q)
      : Type 0 where
    end : ServerConnection q
    ends : serve q c (suc m) router s ≡ some end
    same_send : end.control_send ≡ s.control_send
    same_conn : end.quic_conn ≡ s.quic_conn
    skipped : List ℕ
    left : spec.pending end.control_recv ≡ skipped ++ more

  serve_refusal :
      (m : ℕ) (router : BxpRouter q) (s : ServerConnection q) (body more : List ℕ)
      → length body < u32_mod
      → IsRefused c body
      → spec.pending s.control_recv ≡ frame body ++ more
      → Ended router more m s
  unfolding serve serve_round
  serve_refusal m router s body more fits (inl big) p =
      let (res, left) =
        rw
          (
            p ∙ append_assoc {0} (to_le_bytes (length body)) body more,
            next_frame-oversized max_control_msg (length body) (body ++ more) big fits,
          )
          at (receive_request-Receives spec c s) in
      let (conn, send) = receive_request_passive q c s in
      record {
        end = (receive_request q c s).1;
        ends = rw (res, serve_round);
        same_send = send;
        same_conn = conn;
        skipped = body;
        left = left;
      }
  serve_refusal m router s body more fits (inr (small, e, bad)) p =
      let (res, left) =
        rw (p, next_frame-frame max_control_msg body more small fits) at
          (receive_request-Receives spec c s) in
      let (conn, send) = receive_request_passive q c s in
      record {
        end = (receive_request q c s).1;
        ends = rw (res, bad, serve_round);
        same_send = send;
        same_conn = conn;
        skipped = [];
        left = left;
      }

  -- A client has sent requests that can be served, then a message that the server refuses, one
  -- above 1 MB (and below 2 ^ 32 bytes) or one that cannot be decoded, and then anything else, to a
  -- server whose control stream is open and new; the router answers by the policy `status`. Then
  -- the serving loop, with fuel for more rounds than there are requests before the refused message,
  -- ends at that message: it has written the responses to those requests, in order, and nothing
  -- else, which is what the client receives, and all that stands behind the refused message is
  -- unread. The loop comes to the refused message with some connection `u`, and leaves the QUIC
  -- connection of that as it is.
  pub refused_session :
      (n : ℕ) (router : BxpRouter q) (status : BxpRequest → BxpStatus) (rs : List BxpRequest)
      (body more : List ℕ) (server : ServerConnection q) (later : ClientConnection q)
      → Answers spec codec router status
      → AllServable codec status rs
      → length body < u32_mod
      → IsRefused c body
      → IsOpen spec server
      → spec.written server.control_send ≡ []
      → spec.pending server.control_recv ≡ request_frames codec rs ++ (frame body ++ more)
      → spec.pending later.control_recv ≡ output spec codec (serve q c n router server)
      → length rs < n
      → (t : ServerConnection q) × (serve q c n router server ≡ some t)
        × (spec.written t.control_send ≡ reply_frames codec status rs)
        × (receive_all q c (length rs) later ≡ replies status rs)
        × ((skipped : List ℕ) × (spec.pending t.control_recv ≡ skipped ++ more))
        × (m : ℕ) × (u : ServerConnection q) × (serve q c n router server
            ≡ serve q c (suc m) router u)
        × (spec.pending u.control_recv ≡ frame body ++ more)
        × (t.quic_conn ≡ u.quic_conn)
  refused_session n router status rs body more server later answers h fits refused open_
        none_written p back enough =
      let (m, fuel) = enough_rounds rs n enough in
      let through =
        serve-Through (suc m) router status rs (frame body ++ more) server answers h open_ p in
      let stop = serve_refusal m router through.behind body more fits refused through.left in
      let done : serve q c n router server ≡ some stop.end =
        ap (λ k. serve q c k router server) fuel ∙ through.goes_on ∙ stop.ends in
      let wrote : spec.written stop.end.control_send ≡ reply_frames codec status rs =
        ap spec.written stop.same_send
        ∙ through.wrote
        ∙ ap (λ w. w ++ reply_frames codec status rs) none_written in
      (
        stop.end,
        done,
        wrote,
        receive_all-reply_frames spec codec status rs later h
            (back ∙ ap (output spec codec) done ∙ wrote),
        (stop.skipped, stop.left),
        m,
        through.behind,
        ap (λ k. serve q c k router server) fuel ∙ through.goes_on,
        through.left,
        stop.same_conn,
      )
