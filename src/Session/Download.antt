-- ===== src/Session/Download.antt =====
-- One fetch by the client of examples/file-transfer.rs from a server with a file transfer route.
use bxp_core.Base.{
  ℕ, ◌<◌, ◌≡◌, ◌∙◌, ap, true, none, some, List, [], ◌∷◌, ◌++◌, arith, ok, lift, ◌>>=◌, >>=-ok,
  >>=-keeps, sym, append-nil, refl, Option, Method,
}
use bxp_core.Base.Str.{Str}
use bxp_core.Capnp.{Capnp, IsCapnp}
use bxp_core.Client
use bxp_core.Client.{ClientConnection, send_request, receive_response}
use bxp_core.Client.Receive.{receive_response_passive}
use bxp_core.Exchange.Request.{send_request-frame}
use bxp_core.Exchange.Response.{receive_response-frame}
use bxp_core.Exchange.Script.{request_frames, reply, reply_frames, AllServable, IsReady}
use bxp_core.Exchange.Streams.{tagged}
use bxp_core.Protocol.{BxpAction, BxpResponse, BxpStatus, Error}
use bxp_core.Quic.{Quic, IsQuic}
use bxp_core.Server.{ServerConnection}
use bxp_core.Session.{serve, file_router, read_payload, download}
use bxp_core.Session.Replies.{output}
use bxp_core.Session.Serving.{IsOpen}
use bxp_core.Session.Transfers.{fetch_file, fetches, granted, owed_streams, streams, serve-fetches}
use bxp_core.Stream.Transfer.{read_on-preamble, read_on-whole}

module _ {q : Quic} {c : Capnp} (spec : IsQuic q) (codec : IsCapnp c) where
  read_payload-success :
      (s : ClientConnection q) {stream : ℕ × q.RecvStream}
      → (Client.read_data_stream q s).0 ≡ ok stream
      → (read_payload q c BxpStatus.success s).0 ≡ ok (some stream)
  unfolding read_payload
  read_payload-success s got =
      ap (λ r. r.0) (>>=-ok (Client.read_data_stream q) (λ t. lift (ok (some t))) s _ got)

  -- Reading a data stream writes nothing to the control stream.
  read_payload_keeps :
      (status : BxpStatus) (s : ClientConnection q)
      → (read_payload q c status s).1.control_send ≡ s.control_send
  unfolding read_payload Client.read_data_stream
  read_payload_keeps BxpStatus.success s =
      >>=-keeps (λ u. u.control_send) (Client.read_data_stream q) (λ t. lift (ok (some t))) s
        (λ t u. refl)
  read_payload_keeps BxpStatus.bad_request s = refl
  read_payload_keeps BxpStatus.unauthorized s = refl
  read_payload_keeps BxpStatus.not_found s = refl
  read_payload_keeps BxpStatus.internal_error s = refl

module _ {q : Quic} {c : Capnp} (spec : IsQuic q) (codec : IsCapnp c) (uri : Str) where
  -- Whatever comes back, what the client has written is its one request.
  pub written-download :
      (req_id : ℕ) (s : ClientConnection q)
      → AllServable codec granted (fetches uri (req_id ∷ []))
      → IsReady spec codec s
      → spec.written (download q c req_id uri s).1.control_send
        ≡ spec.written s.control_send ++ request_frames codec (fetches uri (req_id ∷ []))
  unfolding download request_frames
  written-download req_id s (sendable, _, _) (up, open_) =
      let (res, wrote, _, _, _, _) =
        send_request-frame spec codec s (fetch_file uri req_id) up open_
          (omega (arith, sendable.small)) in
      let t = (send_request q c req_id BxpAction.fetch uri s).1 in
      let (_, same, _) = receive_response_passive q c t in
      let after_response : BxpResponse
          → Method Error (ClientConnection q) (BxpResponse × Option (ℕ × q.RecvStream)) =
        λ r. read_payload q c r.status >>= λ p. lift (ok (r, p)) in
      ap (λ x. spec.written x.1.control_send)
        (>>=-ok (send_request q c req_id BxpAction.fetch uri)
          (λ _. receive_response q c >>= after_response) s tt res)
      ∙ ap spec.written (
          >>=-keeps (λ u. u.control_send) (receive_response q c) after_response t
            (λ r u.
              >>=-keeps (λ v. v.control_send) (read_payload q c r.status) (λ p. lift (ok (r, p))) u
                (λ p v. refl)
              ∙ read_payload_keeps spec codec r.status u)
          ∙ same)
      ∙ wrote
      ∙ ap (λ w. spec.written s.control_send ++ w) (sym (append-nil _))

  -- If the response to the fetch is the head of the control stream, and its data stream is the next
  -- to be accepted, `download` returns both.
  pub download_lem :
      (req_id : ℕ) (payload : List ℕ) (s : ClientConnection q)
      → AllServable codec granted (fetches uri (req_id ∷ []))
      → IsReady spec codec s
      → spec.pending s.control_recv ≡ reply_frames codec granted (fetches uri (req_id ∷ []))
      → spec.incoming s.quic_conn ≡ tagged (owed_streams payload (req_id ∷ []))
      → spec.whole s.quic_conn ≡ true
      → (r : q.RecvStream) × ((download q c req_id uri s).0
          ≡ ok (record { req_id = req_id; status = BxpStatus.success }, some (req_id, r)))
        × (spec.pending r ≡ payload)
        × (spec.clean r ≡ true)
  unfolding download reply_frames tagged Client.read_data_stream
  download_lem req_id payload s (sendable, replied, _) (up, open_) back data_back all_clean =
      let done = reply granted (fetch_file uri req_id) in
      let (res, wrote, up', open', inbox, conn) =
        send_request-frame spec codec s (fetch_file uri req_id) up open_
          (omega (arith, sendable.small)) in
      let t = (send_request q c req_id BxpAction.fetch uri s).1 in
      let (got, left) =
        receive_response-frame spec codec t done [] replied (ap spec.pending inbox ∙ back) in
      let u = (receive_response q c t).1 in
      let (same, _, _) = receive_response_passive q c t in
      let (r, stream, bytes, _) =
        read_on-preamble spec u.quic_conn req_id payload [] replied.id_fits
          (ap spec.incoming (same ∙ conn) ∙ data_back) in
      let (clean, _) =
        read_on-whole spec u.quic_conn req_id r (ap spec.whole (same ∙ conn) ∙ all_clean) stream in
      (
        r,
        ap (λ x. x.0)
            (>>=-ok (send_request q c req_id BxpAction.fetch uri)
                (λ _. receive_response q c >>= λ res.
                  read_payload q c res.status >>= λ p. lift (ok (res, p)))
                s tt res
              ∙ >>=-ok (receive_response q c)
                  (λ res. read_payload q c res.status >>= λ p. lift (ok (res, p))) t done got
              ∙ >>=-ok (read_payload q c BxpStatus.success) (λ p. lift (ok (done, p))) u _
                  (read_payload-success spec codec u stream)),
        bytes,
        clean,
      )

  -- A client fetches a URI, under an id that can be served, from a server that has only that URI
  -- registered, for the file transfer, is on a new and live connection, has a payload that is read
  -- to its end, and has fuel for more than one round: if the server has read this request, and the
  -- client reads the responses and the data streams that the server has written, then `download`
  -- returns `success` with the request's id, and a data stream for the same id that delivers the
  -- whole payload and then ends cleanly, if the streams that the client gets do.
  pub download_session :
      (rounds req_id : ℕ) (payload : q.Source) (client : ClientConnection q)
      (server : ServerConnection q)
      → AllServable codec granted (fetches uri (req_id ∷ []))
      → IsReady spec codec client
      → IsOpen spec server
      → spec.alive server.quic_conn ≡ true
      → spec.fails payload ≡ none
      → spec.written server.control_send ≡ []
      → spec.delivered server.quic_conn ≡ []
      → spec.pending server.control_recv ≡ request_frames codec (fetches uri (req_id ∷ []))
      → spec.pending client.control_recv
        ≡ output spec codec (serve q c rounds (file_router q c uri payload) server)
      → spec.incoming client.quic_conn
        ≡ streams spec codec (serve q c rounds (file_router q c uri payload) server)
      → spec.whole client.quic_conn ≡ true
      → 1 < rounds
      → (r : q.RecvStream) × ((download q c req_id uri client).0
          ≡ ok (record { req_id = req_id; status = BxpStatus.success }, some (req_id, r)))
        × (spec.pending r ≡ spec.yields payload)
        × (spec.clean r ≡ true)
  download_session rounds req_id payload client server h ready open_ live whole none_written
        none_yet arrived back data_back all_clean enough =
      let (t, done, wrote, delivered) =
        serve-fetches spec codec uri rounds payload (req_id ∷ []) server h open_ live whole arrived
          enough in
      download_lem req_id (spec.yields payload) client h ready
        (back
          ∙ ap (output spec codec) done
          ∙ wrote
          ∙ ap (λ w. w ++ reply_frames codec granted (fetches uri (req_id ∷ []))) none_written)
        (data_back
          ∙ ap (streams spec codec) done
          ∙ delivered
          ∙ ap (λ d. d ++ tagged (owed_streams (spec.yields payload) (req_id ∷ []))) none_yet)
        all_clean
