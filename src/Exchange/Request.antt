-- ===== src/Exchange/Request.antt =====
-- A request from `send_request` of src/client.rs to `receive_request` of src/server.rs.
use bxp_core.Base.{
  ℕ, ◌≤◌, ◌<◌, ◌≡◌, refl, ◌∙◌, true, false, List, ◌++◌, ok, length, replicate, arith,
}
use bxp_core.Base.Bytes.{u32_mod}
use bxp_core.Base.Str.{Str}
use bxp_core.Capnp.{Capnp, IsCapnp, IsText}
use bxp_core.Client.{ClientConnection, on_send, request_message, send_request}
use bxp_core.Frame.{frame}
use bxp_core.Frame.Reading.{next_frame-frame, fill_length-frame}
use bxp_core.Protocol.{Action, BxpAction, BxpRequest, action_into, action_try_from}
use bxp_core.Protocol.Conversions.{action_round_trip}
use bxp_core.Quic.{Quic, IsQuic}
use bxp_core.Server.{ServerConnection, max_control_msg, decode_request, receive_request}
use bxp_core.Server.Receive.{receive_request-Receives}

module _ {c : Capnp} (codec : IsCapnp c) where
  -- The bytes of the message of a request, without the header.
  abbrev pub request_payload : BxpRequest → List ℕ
  request_payload r = codec.request_bytes (request_message c r.req_id r.action r.uri)

  -- A request that both ends can handle: the id is a u32, the URI fits a text, and the message
  -- is at most 1 MB long.
  pub record IsSendable (r : BxpRequest) : Type 0 where
    pub id_fits : r.req_id < u32_mod
    pub is_text : IsText r.uri
    pub small : length (request_payload r) ≤ max_control_msg

  decode_request_steps :
      (bs : List ℕ) {message : c.MessageReader} {root : c.RequestReader} {action : Action}
      {a : BxpAction} {text : c.Text} {uri : Str}
      → c.read_message bs ≡ ok message
      → c.get_request_root message ≡ ok root
      → c.get_action root ≡ ok action
      → action_try_from action ≡ ok a
      → c.get_resource_uri root ≡ ok text
      → c.to_string text ≡ ok uri
      → decode_request c bs ≡ ok (record { req_id = c.get_request_id root; action = a; uri = uri })
  unfolding decode_request
  decode_request_steps bs h1 h2 h3 h4 h5 h6 = ground arith

  pub decode_request-payload :
      (r : BxpRequest) → IsSendable r → decode_request c (request_payload r) ≡ ok r
  unfolding request_message
  decode_request-payload r h =
      let with_id = c.set_request_id r.req_id c.new_request in
      let with_action = c.set_action (action_into r.action) with_id in
      let (mr, read, root) =
        codec.read-write_request (request_message c r.req_id r.action r.uri)
          (omega (arith, h.small)) in
      let (text, got, str) = codec.uri-set r.uri with_action h.is_text in
      let id_kept =
        codec.request_id-set_uri r.uri with_action
        ∙ codec.request_id-set_action (action_into r.action) with_id
        ∙ codec.request_id-set r.req_id c.new_request h.id_fits in
      let action_kept =
        codec.action-set_uri r.uri with_action ∙ codec.action-set (action_into r.action) with_id in
      decode_request_steps (request_payload r) read root action_kept
        (action_round_trip.0 r.action).0 got str
      ∙ rw id_kept

module _ {q : Quic} {c : Capnp} (spec : IsQuic q) (codec : IsCapnp c) where
  send_request_step :
      (s : ClientConnection q) (r : BxpRequest)
      → length (request_payload codec r) < u32_mod
      → send_request q c r.req_id r.action r.uri s
        ≡ on_send (q.write_all (frame (request_payload codec r))) s
  unfolding send_request
  send_request_step s r fits = rw (
    codec.write_request-appends (request_message c r.req_id r.action r.uri) (replicate 4 0),
    fill_length-frame (request_payload codec r) fits,
  )

  pub send_request-frame :
      (s : ClientConnection q) (r : BxpRequest)
      → spec.healthy s.control_send ≡ true
      → spec.finished s.control_send ≡ false
      → length (request_payload codec r) < u32_mod
      → let (res, t) = send_request q c r.req_id r.action r.uri s in
        (res ≡ ok tt)
        × (spec.written t.control_send
            ≡ spec.written s.control_send ++ frame (request_payload codec r))
        × (spec.healthy t.control_send ≡ true)
        × (spec.finished t.control_send ≡ false)
        × (t.control_recv ≡ s.control_recv)
        × (t.quic_conn ≡ s.quic_conn)
  send_request-frame s r h f fits =
      let w = spec.write_all-healthy (frame (request_payload codec r)) s.control_send h f in
      rw (send_request_step s r fits) (ground arith, w.1, w.2, w.3, refl, refl)

module _ {q : Quic} {c : Capnp} (spec : IsQuic q) (codec : IsCapnp c) where
  -- A request that can be sent (an id below 2 ^ 32, a URI that Cap'n Proto can hold as text, and a
  -- message of at most 1 MB), framed as `send_request` frames it and at the head of the server's
  -- control stream, is what `receive_request` returns, with its id, action and URI, and what
  -- follows its frame stays pending.
  pub receive_request-frame :
      (s : ServerConnection q) (r : BxpRequest) (rest : List ℕ)
      → IsSendable codec r
      → spec.pending s.control_recv ≡ frame (request_payload codec r) ++ rest
      → ((receive_request q c s).0 ≡ ok r)
        × (spec.pending (receive_request q c s).1.control_recv ≡ rest)
  receive_request-frame s r rest h p =
      let (res, left) =
        rw
          (
            p,
            next_frame-frame max_control_msg (request_payload codec r) rest h.small
                (omega (arith, h.small)),
          )
          at (receive_request-Receives spec c s) in
      (res ∙ decode_request-payload codec r h, left)
