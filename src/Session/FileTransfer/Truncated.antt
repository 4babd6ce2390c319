-- ===== src/Session/FileTransfer/Truncated.antt =====
-- The program examples/file-transfer.rs with a file whose reading fails on the way.
use bxp_core.Base.{ℕ, suc, ◌≡◌, refl, ◌∙◌, ap, sym, true, some, [], ◌∷◌, ◌++◌, append-nil, take}
use bxp_core.Base.Bytes.{to_le_bytes}
use bxp_core.Base.Str.{codes}
use bxp_core.Capnp.{Capnp, IsCapnp}
use bxp_core.Client.{ClientConnection}
use bxp_core.Exchange.Request.{receive_request-frame}
use bxp_core.Exchange.Response.{send_response-frame}
use bxp_core.Exchange.Script.{request_frames, reply_frames, AllServable, IsReady}
use bxp_core.Exchange.Streams.{tagged}
use bxp_core.Protocol.{BxpStatus}
use bxp_core.Quic.{Quic, IsQuic}
use bxp_core.Server.{ServerConnection, receive_request, send_response, send_data_stream}
use bxp_core.Server.Receive.{receive_request_passive, receive_request_at_end}
use bxp_core.Session.{serve, serve_round, file_router, handle_file_transfer, download}
use bxp_core.Session.Download.{download_lem}
use bxp_core.Session.FileTransfer.{
  Outcome, movie, movie_router, movie_client, movie_router-file_router, streamed_lem,
}
use bxp_core.Session.Handlers.{file_transfer_step, handle_file_transfer-AnswersSuccess}
use bxp_core.Session.Replies.{output}
use bxp_core.Session.Serving.{IsOpen}
use bxp_core.Session.Transfers.{fetch_file, fetches, granted, owed_streams, streams, dispatch_fetch}
use bxp_core.Stream.Transfer.{send_on-truncates}

module _ {q : Quic} {c : Capnp} (spec : IsQuic q) (codec : IsCapnp c) where
  -- The data stream of the handler stops where the source failed.
  handle_file_transfer-truncates :
      (payload : q.Source) (e req_id : ℕ) (s : ServerConnection q)
      → AllServable codec granted (fetches movie (req_id ∷ []))
      → IsOpen spec s
      → spec.alive s.quic_conn ≡ true
      → spec.fails payload ≡ some e
      → (k : ℕ) × (spec.delivered
            (handle_file_transfer q c payload (fetch_file movie req_id) s).1.quic_conn
          ≡ spec.delivered s.quic_conn
            ++ tagged (owed_streams (take k (spec.yields payload)) (req_id ∷ [])))
  unfolding send_data_stream tagged
  handle_file_transfer-truncates payload e req_id s (_, replied, _) (up, open_) live broken =
      let (res, wrote, up', open', inbox, conn) =
        send_response-frame spec codec s (record { req_id = req_id; status = BxpStatus.success })
          replied up open_ in
      let t = (send_response q c req_id BxpStatus.success s).1 in
      let (failed, k, cut) =
        send_on-truncates spec req_id payload t.quic_conn e (rw conn live) broken in
      rw (file_transfer_step spec codec (fetch_file movie req_id) payload s res) (
        k,
        cut
            ∙ ap
                (λ x.
                  spec.delivered x ++ ((to_le_bytes req_id ++ take k (spec.yields payload)) ∷ []))
                conn,
      )

  serve-truncates :
      (n : ℕ) (payload : q.Source) (e req_id : ℕ) (s : ServerConnection q)
      → AllServable codec granted (fetches movie (req_id ∷ []))
      → IsOpen spec s
      → spec.alive s.quic_conn ≡ true
      → spec.fails payload ≡ some e
      → spec.pending s.control_recv ≡ request_frames codec (fetches movie (req_id ∷ []))
      → (k : ℕ) × (t : ServerConnection q) × (serve q c
            (suc (suc n))
            (file_router q c movie payload)
            s
          ≡ some t)
        × (spec.written t.control_send
            ≡ spec.written s.control_send
              ++ reply_frames codec granted (fetches movie (req_id ∷ [])))
        × (spec.delivered t.quic_conn
            ≡ spec.delivered s.quic_conn
              ++ tagged (owed_streams (take k (spec.yields payload)) (req_id ∷ [])))
  unfolding serve serve_round request_frames reply_frames
  serve-truncates n payload e req_id s (sendable, replied, more) open_ live broken arrived =
      let r = fetch_file movie req_id in
      let (got, rest) = receive_request-frame spec codec s r [] sendable arrived in
      let t = (receive_request q c s).1 in
      let (conn, send) = receive_request_passive q c s in
      let (k, cut) =
        handle_file_transfer-truncates payload e req_id t (sendable, replied, more) (rw send open_)
          (rw conn live) broken in
      let (wrote, still, inbox) =
        handle_file_transfer-AnswersSuccess spec codec payload r t replied (rw send open_) in
      let u = (handle_file_transfer q c payload r t).1 in
      let (x, failed, left, same) =
        receive_request_at_end spec c u (ap spec.pending inbox ∙ rest) in
      (
        k,
        (receive_request q c u).1,
        rw (got, serve_round, dispatch_fetch spec codec movie payload req_id t)
            (rw (failed, serve_round)),
        rw same (wrote ∙ rw send (ap (λ w. spec.written s.control_send ++ w) (sym (append-nil _)))),
        rw (receive_request_passive q c u).0 (cut ∙ rw conn refl),
      )

  -- The program from end to end, on a new and live connection with open control streams, for a
  -- request that can be served, and with a file whose reading fails: if the server's task has read
  -- the client's one request and has fuel for at least two rounds, and the client reads the
  -- responses and the data streams that the server has written, each to a clean end, then the
  -- client reports no error: it saves some first part of what the file had yielded and closes the
  -- connection with code 0 and the reason `Done`, as after a whole file.
  pub movie_session_truncated :
      (rounds : ℕ) (payload : q.Source) (e : ℕ) (client : ClientConnection q)
      (server : ServerConnection q)
      → AllServable codec granted (fetches movie (1 ∷ []))
      → IsReady spec codec client
      → IsOpen spec server
      → spec.alive server.quic_conn ≡ true
      → spec.fails payload ≡ some e
      → spec.written server.control_send ≡ []
      → spec.delivered server.quic_conn ≡ []
      → spec.pending server.control_recv ≡ request_frames codec (fetches movie (1 ∷ []))
      → spec.pending client.control_recv
        ≡ output spec codec (serve q c (suc (suc rounds)) (movie_router q c payload) server)
      → spec.incoming client.quic_conn
        ≡ streams spec codec (serve q c (suc (suc rounds)) (movie_router q c payload) server)
      → spec.whole client.quic_conn ≡ true
      → (k : ℕ) × ((movie_client q c client).0 ≡ Outcome.saved (take k (spec.yields payload)))
        × (spec.closed_with (movie_client q c client).1.0 ≡ some (0, codes "Done"))
  unfolding movie_client
  movie_session_truncated rounds payload e client server h ready open_ live broken none_written
        none_yet arrived back data_back all_clean =
      let same = movie_router-file_router q c payload in
      let (k, t, done, wrote, delivered) =
        serve-truncates rounds payload e 1 server h open_ live broken arrived in
      let (r, got, bytes, clean) =
        download_lem spec codec movie 1 (take k (spec.yields payload)) client h ready
          (rw same at back
            ∙ ap (output spec codec) done
            ∙ wrote
            ∙ ap (λ w. w ++ reply_frames codec granted (fetches movie (1 ∷ []))) none_written)
          (rw same at data_back
            ∙ ap (streams spec codec) done
            ∙ delivered
            ∙ ap (λ d. d ++ tagged (owed_streams (take k (spec.yields payload)) (1 ∷ []))) none_yet)
          all_clean in
      let (bytes_saved, closed) =
        streamed_lem spec codec (download q c 1 movie client) _ r got clean in
      (k, bytes_saved ∙ ap Outcome.saved bytes, closed)
