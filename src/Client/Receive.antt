-- ===== src/Client/Receive.antt =====
-- `receive_response` of src/client.rs against the reference reader of the control stream.
use bxp_core.Base.{
  ℕ, ◌<◌, ◌≡◌, refl, List, [], Result, ok, err, >>=-ok, Bool-cases, inl, inr, length, take, ltb,
  arith,
}
use bxp_core.Base.Bytes.{from_le_bytes}
use bxp_core.Capnp.{Capnp}
use bxp_core.Client.{ClientConnection, on_recv, decode_response, receive_message, receive_response}
use bxp_core.Frame.Reading.{
  Next, message, oversized, truncated, next_whole, next_unlimited, next_unlimited-shrinks,
}
use bxp_core.Protocol.{BxpResponse, Error, quic}
use bxp_core.Quic.{Quic, IsQuic}

-- Whatever arrives, `receive_response` leaves the QUIC connection, the sending side of the control
-- stream and the endpoint as they were.
pub receive_response_passive :
    (q : Quic) (c : Capnp) (s : ClientConnection q)
    → ((receive_response q c s).1.quic_conn ≡ s.quic_conn)
      × ((receive_response q c s).1.control_send ≡ s.control_send)
      × ((receive_response q c s).1.endpoint ≡ s.endpoint)
unfolding receive_response receive_message
receive_response_passive q c s = ground arith

module _ {q : Quic} (spec : IsQuic q) (c : Capnp) where
  -- What a call that left the connection `t` has done, by what stood in the stream before it.
  -- There is no limit on the length, so nothing is oversized.
  abbrev pub Receives : Next → Result Error BxpResponse → ClientConnection q → Type 0
  Receives (message body rest) r t =
      (r ≡ decode_response c body) × (spec.pending t.control_recv ≡ rest)
  Receives (oversized len rest) r t = ⊥
  Receives truncated r t = (e : ℕ) × (r ≡ err (quic e)) × (spec.pending t.control_recv ≡ [])

  message-Receives :
      (s : ClientConnection q) (len : ℕ)
      → Receives
          (next_whole len (spec.pending s.control_recv))
          (receive_message q c len s).0
          (receive_message q c len s).1
  unfolding next_whole receive_message
  message-Receives s len = elim (Bool-cases (ltb (length (spec.pending s.control_recv)) len)) [
    | inl short ↦
        let (e, r, p) = spec.read_exact-short len s.control_recv (ground arith) in
        rw short (e, ground arith, ground arith)
    | inr enough ↦
        let (r, p) = spec.read_exact-enough len s.control_recv (ground arith) in
        rw enough (ground arith, ground arith)
  ]

  after_header :
      (s : ClientConnection q) {len_buf : List ℕ}
      → (q.read_exact 4 s.control_recv).0 ≡ ok len_buf
      → receive_response q c s
        ≡ receive_message q c (from_le_bytes len_buf) (on_recv (q.read_exact 4) s).1
  unfolding receive_response
  after_header s {len_buf} h =
      >>=-ok (on_recv (q.read_exact 4)) (λ b. receive_message q c (from_le_bytes b)) s len_buf
        (rw h)

  -- On every connection `receive_response` does what the reference reader with no limit finds in
  -- the pending bytes of the control stream: at a whole message it returns what the message
  -- decodes to and consumes exactly the frame, at an end inside of a frame it returns an error of
  -- the stream.
  pub receive_response-Receives :
      (s : ClientConnection q)
      → Receives
          (next_unlimited (spec.pending s.control_recv))
          (receive_response q c s).0
          (receive_response q c s).1
  unfolding next_unlimited receive_response
  receive_response-Receives s = elim (Bool-cases (ltb (length (spec.pending s.control_recv)) 4)) [
    | inl short ↦
        let (e, r, p) = spec.read_exact-short 4 s.control_recv (ground arith) in
        rw short (e, ground arith, ground arith)
    | inr enough ↦
        let (r, p) = spec.read_exact-enough 4 s.control_recv (ground arith) in
        rw (enough, ← p, after_header s r)
          (message-Receives (on_recv (q.read_exact 4) s).1
            (from_le_bytes (take 4 (spec.pending s.control_recv))))
  ]

  -- Where `receive_response` returns a response it has consumed a part of the stream.
  pub receive_response-consumes :
      (s : ClientConnection q) {r : BxpResponse}
      → (receive_response q c s).0 ≡ ok r
      → length (spec.pending (receive_response q c s).1.control_recv)
        < length (spec.pending s.control_recv)
  receive_response-consumes s {r} h =
      go (next_unlimited (spec.pending s.control_recv)) refl (receive_response-Receives s)
    where
      go :
          (found : Next)
          → next_unlimited (spec.pending s.control_recv) ≡ found
          → Receives found (receive_response q c s).0 (receive_response q c s).1
          → length (spec.pending (receive_response q c s).1.control_recv)
            < length (spec.pending s.control_recv)
      go (message body rest) e (res, p) =
          rw p (next_unlimited-shrinks (spec.pending s.control_recv) body rest e)
      go (oversized len rest) e never = absurd never
      go truncated e (k, res, p) = cc (h)
