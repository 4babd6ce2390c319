-- ===== src/Server/Receive.antt =====
-- `receive_request` of src/server.rs against the reference reader of the control stream.
use bxp_core.Base.{
  ℕ, ◌<◌, ◌≡◌, refl, List, [], Result, ok, err, >>=-ok, Bool-cases, inl, inr, length, take, ltb,
  arith,
}
use bxp_core.Base.Bytes.{from_le_bytes}
use bxp_core.Capnp.{Capnp}
use bxp_core.Frame.Reading.{
  Next, message, oversized, truncated, next_whole, next_body, next_frame, next_frame-shrinks,
}
use bxp_core.Protocol.{BxpRequest, Error, quic, too_large}
use bxp_core.Quic.{Quic, IsQuic}
use bxp_core.Server.{
  ServerConnection, on_recv, max_control_msg, decode_request, receive_body, receive_request,
}

-- Whatever arrives, an oversized header and a message that cannot be decoded included,
-- `receive_request` leaves the QUIC connection and the sending side of the control stream as they
-- were: it neither closes the connection nor sends a reply.
pub receive_request_passive :
    (q : Quic) (c : Capnp) (s : ServerConnection q)
    → ((receive_request q c s).1.quic_conn ≡ s.quic_conn)
      × ((receive_request q c s).1.control_send ≡ s.control_send)
unfolding receive_request receive_body
receive_request_passive q c s = ground arith

module _ {q : Quic} (spec : IsQuic q) (c : Capnp) where
  -- What a call that left the connection `t` has done, by what stood in the stream before it.
  abbrev pub Receives : Next → Result Error BxpRequest → ServerConnection q → Type 0
  Receives (message body rest) r t =
      (r ≡ decode_request c body) × (spec.pending t.control_recv ≡ rest)
  Receives (oversized len rest) r t =
      (r ≡ err (too_large len)) × (spec.pending t.control_recv ≡ rest)
  Receives truncated r t = (e : ℕ) × (r ≡ err (quic e)) × (spec.pending t.control_recv ≡ [])

  -- The same for the part of the call that follows the header `len`.
  body-Receives :
      (s : ServerConnection q) (len : ℕ)
      → Receives
          (next_body max_control_msg len (spec.pending s.control_recv))
          (receive_body q c len s).0
          (receive_body q c len s).1
  unfolding next_body next_whole receive_body
  body-Receives s len = elim (Bool-cases (ltb max_control_msg len)) [
    | inl big ↦ rw big (ground arith)
    | inr fits ↦ elim (Bool-cases (ltb (length (spec.pending s.control_recv)) len)) [
      | inl short ↦
          let (e, r, p) = spec.read_exact-short len s.control_recv (ground arith) in
          rw (fits, short) (e, ground arith, ground arith)
      | inr enough ↦
          let (r, p) = spec.read_exact-enough len s.control_recv (ground arith) in
          rw (fits, enough) (ground arith, ground arith)
    ]
  ]

  after_header :
      (s : ServerConnection q) {len_buf : List ℕ}
      → (q.read_exact 4 s.control_recv).0 ≡ ok len_buf
      → receive_request q c s
        ≡ receive_body q c (from_le_bytes len_buf) (on_recv (q.read_exact 4) s).1
  unfolding receive_request
  after_header s {len_buf} h =
      >>=-ok (on_recv (q.read_exact 4)) (λ b. receive_body q c (from_le_bytes b)) s len_buf (rw h)

  -- On every connection `receive_request` does what the reference reader finds in the pending
  -- bytes of the control stream, with the limit of 1 MB: at a whole message it returns what the
  -- message decodes to and consumes exactly the frame; at a header above the limit it returns
  -- that error and consumes the header alone; at an end inside of a frame it returns an error of
  -- the stream.
  pub receive_request-Receives :
      (s : ServerConnection q)
      → Receives
          (next_frame max_control_msg (spec.pending s.control_recv))
          (receive_request q c s).0
          (receive_request q c s).1
  unfolding next_frame receive_request
  receive_request-Receives s = elim (Bool-cases (ltb (length (spec.pending s.control_recv)) 4)) [
    | inl short ↦
        let (e, r, p) = spec.read_exact-short 4 s.control_recv (ground arith) in
        rw short (e, ground arith, ground arith)
    | inr enough ↦
        let (r, p) = spec.read_exact-enough 4 s.control_recv (ground arith) in
        rw (enough, ← p, after_header s r)
          (body-Receives (on_recv (q.read_exact 4) s).1
            (from_le_bytes (take 4 (spec.pending s.control_recv))))
  ]

  -- Where `receive_request` returns a request it has consumed a part of the stream.
  pub receive_request-consumes :
      (s : ServerConnection q) {r : BxpRequest}
      → (receive_request q c s).0 ≡ ok r
      → length (spec.pending (receive_request q c s).1.control_recv)
        < length (spec.pending s.control_recv)
  receive_request-consumes s {r} h =
      go (next_frame max_control_msg (spec.pending s.control_recv)) refl
        (receive_request-Receives s)
    where
      go :
          (found : Next)
          → next_frame max_control_msg (spec.pending s.control_recv) ≡ found
          → Receives found (receive_request q c s).0 (receive_request q c s).1
          → length (spec.pending (receive_request q c s).1.control_recv)
            < length (spec.pending s.control_recv)
      go (message body rest) e (res, p) =
          rw p (next_frame-shrinks max_control_msg (spec.pending s.control_recv) body rest e)
      go (oversized len rest) e (res, p) = cc (h)
      go truncated e (k, res, p) = cc (h)

  -- At the end of the stream `receive_request` fails, and leaves the sending side as it was.
  pub receive_request_at_end :
      (s : ServerConnection q)
      → spec.pending s.control_recv ≡ []
      → (e : ℕ) × ((receive_request q c s).0 ≡ err (quic e))
        × (spec.pending (receive_request q c s).1.control_recv ≡ [])
        × ((receive_request q c s).1.control_send ≡ s.control_send)
  unfolding next_frame
  receive_request_at_end s p =
      let (e, r, left) = rw p at (receive_request-Receives s) in
      (e, r, left, (receive_request_passive q c s).1)
