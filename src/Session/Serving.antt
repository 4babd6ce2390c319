-- ===== src/Session/Serving.antt =====
-- The serving loop, for any router.
use bxp_core.Base.{
  ℕ, zero, suc, ◌<◌, ◌≡◌, ◌∙◌, ap, sym, true, false, inl, inr, some, List, [], ◌∷◌, ◌++◌,
  append-nil, append_assoc, Result-cases, length, arith,
}
use bxp_core.Capnp.{Capnp, IsCapnp}
use bxp_core.Exchange.Request.{receive_request-frame}
use bxp_core.Exchange.Response.{response_payload, IsReply}
use bxp_core.Exchange.Script.{request_frames, reply, reply_frames, AllServable}
use bxp_core.Frame.{frame}
use bxp_core.Protocol.{BxpRequest, BxpStatus}
use bxp_core.Quic.{Quic, IsQuic}
use bxp_core.Router.{BxpRouter, handle_request}
use bxp_core.Server.{ServerConnection, receive_request}
use bxp_core.Server.Receive.{
  receive_request-consumes, receive_request_passive, receive_request_at_end,
}
use bxp_core.Session.{serve, serve_round}

module _ {q : Quic} (spec : IsQuic q) where
  -- The sending side of the control stream is open.
  abbrev pub IsOpen : ServerConnection q → Type 0
  IsOpen s = (spec.healthy s.control_send ≡ true) × (spec.finished s.control_send ≡ false)

module _ {q : Quic} (c : Capnp) where
  -- No handler of the router reads from the control stream.
  abbrev pub KeepsInbox : BxpRouter q → Type 0
  KeepsInbox router =
      (r : BxpRequest) (s : ServerConnection q)
      → (handle_request q c router r s).1.control_recv ≡ s.control_recv

module _ {q : Quic} (spec : IsQuic q) (c : Capnp) where
  -- If no handler reads from the control stream, the loop ends, whatever bytes the client sent: one
  -- round more than there are bytes is enough.
  pub serve_ends :
      (n : ℕ) (router : BxpRouter q) (s : ServerConnection q)
      → KeepsInbox c router
      → length (spec.pending s.control_recv) < n
      → (t : ServerConnection q) × (serve q c n router s ≡ some t)
  unfolding serve serve_round
  serve_ends zero router s keeps enough = elim enough [ ]
  serve_ends (suc n) router s keeps enough = elim (Result-cases (receive_request q c s).0) [
    | inl (r, got) ↦
        let left = receive_request-consumes spec c s got in
        let t = (receive_request q c s).1 in
        rw (got, serve_round)
          (serve_ends n router (handle_request q c router r t).1 keeps
            (rw (ap spec.pending (keeps r t)) (omega arith)))
    | inr (e, failed) ↦ ((receive_request q c s).1, rw (failed, serve_round))
  ]

module _ {q : Quic} {c : Capnp} (spec : IsQuic q) (codec : IsCapnp c) where
  -- The router answers each request that can be served with one frame, the response with its id
  -- and the status of the policy, and neither closes nor reads the control stream.
  abbrev pub Answers : BxpRouter q → (BxpRequest → BxpStatus) → Type 0
  Answers router status =
      (r : BxpRequest) (s : ServerConnection q)
      → IsReply codec (reply status r)
      → IsOpen spec s
      → let t = (handle_request q c router r s).1 in
        (spec.written t.control_send
          ≡ spec.written s.control_send ++ frame (response_payload codec (reply status r)))
        × IsOpen spec t
        × (t.control_recv ≡ s.control_recv)

  -- A client has sent requests that can be served (ids below 2 ^ 32, URIs that Cap'n Proto can
  -- hold as text, messages of at most 1 MB, and responses within the reader's traversal limit),
  -- any number of them, to a server whose control stream is open, and the router answers each by
  -- the policy `status`. Then the loop, with fuel for more rounds than there are requests, ends,
  -- it has read all requests, and it has written exactly one response for each, in the order of
  -- the requests and with their ids.
  pub serve-request_frames :
      (n : ℕ) (router : BxpRouter q) (status : BxpRequest → BxpStatus) (rs : List BxpRequest)
      (s : ServerConnection q)
      → Answers router status
      → AllServable codec status rs
      → IsOpen spec s
      → spec.pending s.control_recv ≡ request_frames codec rs
      → length rs < n
      → (t : ServerConnection q) × (serve q c n router s ≡ some t)
        × (spec.written t.control_send
            ≡ spec.written s.control_send ++ reply_frames codec status rs)
        × (spec.pending t.control_recv ≡ [])
  unfolding serve serve_round request_frames reply_frames
  serve-request_frames zero router status rs s answers ok_ open_ p enough = elim enough [ ]
  serve-request_frames (suc n) router status [] s answers ok_ open_ p enough =
      let (e, failed, left, same) = receive_request_at_end spec c s p in
      ((receive_request q c s).1, rw (failed, serve_round), rw same (sym (append-nil _)), left)
  serve-request_frames (suc n) router status (r ∷ rs) s answers (sendable, replies, more) open_ p
        enough =
      let (got, rest) = receive_request-frame spec codec s r (request_frames codec rs) sendable p in
      let t = (receive_request q c s).1 in
      let same = (receive_request_passive q c s).1 in
      let (wrote, still, inbox) = answers r t replies (rw same open_) in
      let u = (handle_request q c router r t).1 in
      let (v, done, later, left) =
        serve-request_frames n router status rs u answers more still (ap spec.pending inbox ∙ rest)
          (omega arith) in
      (
        v,
        rw (got, serve_round) done,
        rw (later, wrote, same)
            (append_assoc {0} (spec.written s.control_send)
              (frame (response_payload codec (reply status r))) (reply_frames codec status rs)),
        left,
      )
