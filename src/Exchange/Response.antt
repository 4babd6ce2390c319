-- ===== src/Exchange/Response.antt =====
-- A response from `send_response` of src/server.rs to `receive_response` of src/client.rs.
use bxp_core.Base.{
  ℕ, ◌≤◌, ◌<◌, ◌≡◌, refl, ◌∙◌, true, false, List, ◌++◌, ok, length, replicate, arith,
}
use bxp_core.Base.Bytes.{u32_mod}
use bxp_core.Capnp.{Capnp, IsCapnp, traversal_limit}
use bxp_core.Client.{ClientConnection, decode_response, receive_response}
use bxp_core.Client.Receive.{receive_response-Receives}
use bxp_core.Frame.{frame}
use bxp_core.Frame.Reading.{next_unlimited-frame, fill_length-frame}
use bxp_core.Protocol.{BxpStatus, BxpResponse, StatusCode, status_into, status_try_from}
use bxp_core.Protocol.Conversions.{status_round_trip}
use bxp_core.Quic.{Quic, IsQuic}
use bxp_core.Server.{ServerConnection, on_send, response_message, send_response}

module _ {c : Capnp} (codec : IsCapnp c) where
  -- The bytes of the message of a response, without the header.
  abbrev pub response_payload : BxpResponse → List ℕ
  response_payload r = codec.response_bytes (response_message c r.req_id r.status)

  -- A response that both ends can handle.
  pub record IsReply (r : BxpResponse) : Type 0 where
    pub id_fits : r.req_id < u32_mod
    pub small : length (response_payload r) ≤ traversal_limit

  decode_response_steps :
      (bs : List ℕ) {message : c.MessageReader} {root : c.ResponseReader} {code : StatusCode}
      {s : BxpStatus}
      → c.read_message bs ≡ ok message
      → c.get_response_root message ≡ ok root
      → c.get_status_code root ≡ ok code
      → status_try_from code ≡ ok s
      → decode_response c bs ≡ ok (record { req_id = c.get_response_id root; status = s })
  unfolding decode_response
  decode_response_steps bs h1 h2 h3 h4 = ground arith

  pub decode_response-payload :
      (r : BxpResponse) → IsReply r → decode_response c (response_payload r) ≡ ok r
  unfolding response_message
  decode_response-payload r h =
      let with_id = c.set_response_id r.req_id c.new_response in
      let code = status_into r.status in
      let (mr, read, root) =
        codec.read-write_response (response_message c r.req_id r.status) h.small in
      let id_kept =
        codec.response_id-set_status code with_id
        ∙ codec.response_id-set r.req_id c.new_response h.id_fits in
      decode_response_steps (response_payload r) read root (codec.status-set code with_id)
        (status_round_trip.0 r.status).0
      ∙ rw id_kept

module _ {q : Quic} {c : Capnp} (spec : IsQuic q) (codec : IsCapnp c) where
  send_response_step :
      (s : ServerConnection q) (r : BxpResponse)
      → IsReply codec r
      → send_response q c r.req_id r.status s
        ≡ on_send (q.write_all (frame (response_payload codec r))) s
  unfolding send_response
  send_response_step s r h = rw (
    codec.write_response-appends (response_message c r.req_id r.status) (replicate 4 0),
    fill_length-frame (response_payload codec r) (omega (arith, h.small)),
  )

  -- On an open control stream and for a response that can be sent (an id below 2 ^ 32 and a
  -- message within the reader's traversal limit) `send_response` succeeds, appends exactly the
  -- frame of the response to the stream, and changes nothing else: no data stream is opened and
  -- nothing is read.
  pub send_response-frame :
      (s : ServerConnection q) (r : BxpResponse)
      → IsReply codec r
      → spec.healthy s.control_send ≡ true
      → spec.finished s.control_send ≡ false
      → let (res, t) = send_response q c r.req_id r.status s in
        (res ≡ ok tt)
        × (spec.written t.control_send
            ≡ spec.written s.control_send ++ frame (response_payload codec r))
        × (spec.healthy t.control_send ≡ true)
        × (spec.finished t.control_send ≡ false)
        × (t.control_recv ≡ s.control_recv)
        × (t.quic_conn ≡ s.quic_conn)
  send_response-frame s r h up open_ =
      let w = spec.write_all-healthy (frame (response_payload codec r)) s.control_send up open_ in
      rw (send_response_step s r h) (ground arith, w.1, w.2, w.3, refl, refl)

  -- For a response that can be sent (an id below 2 ^ 32 and a message within the reader's
  -- traversal limit), framed as `send_response` frames it and at the head of the client's control
  -- stream, `receive_response` returns it with its id and status, and what follows its frame stays
  -- pending.
  pub receive_response-frame :
      (s : ClientConnection q) (r : BxpResponse) (rest : List ℕ)
      → IsReply codec r
      → spec.pending s.control_recv ≡ frame (response_payload codec r) ++ rest
      → ((receive_response q c s).0 ≡ ok r)
        × (spec.pending (receive_response q c s).1.control_recv ≡ rest)
  receive_response-frame s r rest h p =
      let (res, left) =
        rw (p, next_unlimited-frame (response_payload codec r) rest (omega (arith, h.small))) at
          (receive_response-Receives spec c s) in
      (res ∙ decode_response-payload codec r h, left)
