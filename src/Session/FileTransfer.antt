-- ===== src/Session/FileTransfer.antt =====
-- The program examples/file-transfer.rs: a server that answers a fetch by a data stream, and a
-- client that fetches one file and keeps its bytes.
pub mod Truncated
use bxp_core.Base.{
  ℕ, ◌<◌, ◌≡◌, refl, ◌∙◌, ap, true, Option, none, some, List, [], ◌∷◌, ◌++◌, Result, ok, err, lift,
  ◌>>◌, ◌==◌, if◌then◌else◌,
}
use bxp_core.Base.Str.{Str, codes}
use bxp_core.Capnp.{Capnp, IsCapnp}
use bxp_core.Client
use bxp_core.Client.{ClientConnection}
use bxp_core.Exchange.Script.{request_frames, AllServable, IsReady}
use bxp_core.Protocol.{BxpAction, BxpResponse, BxpStatus, Error}
use bxp_core.Quic.{Quic, IsQuic}
use bxp_core.Router.{BxpHandler, BxpRouter, new, route}
use bxp_core.Server.{ServerConnection, send_response, send_data_stream, wait_for_close}
use bxp_core.Session.{serve, save, file_router, handle_file_transfer, download, waiting}
use bxp_core.Session.Download.{written-download, download_session}
use bxp_core.Session.Replies.{output}
use bxp_core.Session.Serving.{IsOpen}
use bxp_core.Session.Transfers.{fetches, granted, streams, serve-fetches}

abbrev pub movie : Str
movie = codes "bxp://assets/movie.mp4"

-- How the client ends: with an error, at the assertion on the stream's id, without a stream since
-- the status is not `Success`, or with the bytes that it downloaded.
pub data Outcome : Type 0 where
  failed : Error → Outcome
  mismatched : ℕ → Outcome
  refused : Outcome
  saved : List ℕ → Outcome

module _ (q : Quic) (c : Capnp) where
  unfoldable pub handle_fetch : q.Source → BxpHandler q
  handle_fetch dummy_file req = do
    send_response q c req.req_id BxpStatus.success
    send_data_stream q req.req_id dummy_file
    lift (ok tt)

  unfoldable pub movie_router : q.Source → BxpRouter q
  movie_router dummy_file = route BxpAction.fetch movie (handle_fetch dummy_file) new

  -- The task of one connection: the serving loop, and then the wait for the client's close.
  unfoldable pub movie_task : ℕ → q.Source → ServerConnection q → Option (ServerConnection q)
  movie_task n dummy_file s = waiting q (serve q c n (movie_router dummy_file) s)

  -- The close at the end, to which an error does not get.
  abbrev finished :
      Result Error (List ℕ) × ClientConnection q → Outcome × (q.Connection × q.Endpoint)
  finished (ok downloaded_data, s) = (Outcome.saved downloaded_data, Client.close q s)
  finished (err e, s) = (Outcome.failed e, (s.quic_conn, s.endpoint))

  -- What follows the response, and the stream if there is one: `assert_eq!(stream_req_id, 1)`, the
  -- copy and the close.
  abbrev pub streamed :
      Result Error (BxpResponse × Option (ℕ × q.RecvStream)) × ClientConnection q
      → Outcome × (q.Connection × q.Endpoint)
  streamed (err e, s) = (Outcome.failed e, (s.quic_conn, s.endpoint))
  streamed (ok (res, none), s) = (Outcome.refused, Client.close q s)
  streamed (ok (res, some (stream_req_id, network_stream)), s) =
      if stream_req_id == 1
      then finished (save q network_stream s)
      else (Outcome.mismatched stream_req_id, (q.drop_recv network_stream s.quic_conn, s.endpoint))

  -- The client on an established connection.
  unfoldable pub movie_client : ClientConnection q → Outcome × (q.Connection × q.Endpoint)
  movie_client s = streamed (download q c 1 movie s)

  movie_router-file_router :
      (payload : q.Source) → movie_router payload ≡ file_router q c movie payload
  unfolding movie_router file_router handle_fetch handle_file_transfer
  movie_router-file_router payload = refl

module _ {q : Quic} {c : Capnp} (spec : IsQuic q) (codec : IsCapnp c) where
  pub streamed_lem :
      (p : Result Error (BxpResponse × Option (ℕ × q.RecvStream)) × ClientConnection q)
      (res : BxpResponse) (r : q.RecvStream)
      → p.0 ≡ ok (res, some (1, r))
      → spec.clean r ≡ true
      → ((streamed q c p).0 ≡ Outcome.saved (spec.pending r))
        × (spec.closed_with (streamed q c p).1.0 ≡ some (0, codes "Done"))
  unfolding Client.close
  streamed_lem (o, s) res r e clean =
      rw (e, spec.copy_in-clean r clean)
        (refl, spec.close-records 0 (codes "Done") (q.drop_recv (q.copy_in r).1 s.quic_conn))

  -- The program from end to end, on a new and live connection with open control streams, for a
  -- request that can be served, and with a file that is read to its end: if the server's task reads
  -- exactly what the client has written when its download is over, with fuel for more than one
  -- round, and the client reads exactly the responses and the data streams that the server has
  -- written, each to a clean end, then the task ends, and the client passes its assertion, saves
  -- exactly the file's bytes, and closes the connection with code 0 and the reason `Done`.
  pub movie_session :
      (rounds : ℕ) (payload : q.Source) (client : ClientConnection q) (server : ServerConnection q)
      → AllServable codec granted (fetches movie (1 ∷ []))
      → IsReady spec codec client
      → IsOpen spec server
      → spec.alive server.quic_conn ≡ true
      → spec.fails payload ≡ none
      → spec.written client.control_send ≡ []
      → spec.written server.control_send ≡ []
      → spec.delivered server.quic_conn ≡ []
      → spec.pending server.control_recv ≡ spec.written (download q c 1 movie client).1.control_send
      → spec.pending client.control_recv
        ≡ output spec codec (serve q c rounds (movie_router q c payload) server)
      → spec.incoming client.quic_conn
        ≡ streams spec codec (serve q c rounds (movie_router q c payload) server)
      → spec.whole client.quic_conn ≡ true
      → 1 < rounds
      → ((t : ServerConnection q) × (movie_task q c rounds payload server ≡ some t))
        × ((movie_client q c client).0 ≡ Outcome.saved (spec.yields payload))
        × (spec.closed_with (movie_client q c client).1.0 ≡ some (0, codes "Done"))
  unfolding movie_task movie_client
  movie_session rounds payload client server h ready open_ live whole none_sent none_written
        none_yet came back data_back all_clean enough =
      let arrived =
        came
        ∙ written-download spec codec movie 1 client h ready
        ∙ ap (λ w. w ++ request_frames codec (fetches movie (1 ∷ []))) none_sent in
      let same = movie_router-file_router q c payload in
      let (t, done, _, _) =
        serve-fetches spec codec movie rounds payload (1 ∷ []) server h open_ live whole arrived
          enough in
      let (r, got, bytes, clean) =
        download_session spec codec movie rounds 1 payload client server h ready open_ live whole
          none_written none_yet arrived (rw same at back) (rw same at data_back) all_clean enough in
      let (bytes_saved, closed) = streamed_lem (download q c 1 movie client) _ r got clean in
      (
        (wait_for_close q t, rw same (ap (waiting q) done)),
        bytes_saved ∙ ap Outcome.saved bytes,
        closed,
      )
