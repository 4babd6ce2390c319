-- ===== src/Session.antt =====
-- The loop that serves a connection and the handlers, as tests/integration.rs and the programs
-- under examples/ write them: `while let Ok(request) = connection.receive_request().await` and a
-- call of the router, whose errors are dropped.
pub mod Handlers
pub mod Accepting
pub mod Malformed
pub mod Refused
pub mod Benchmark
pub mod Transfers
pub mod Download
pub mod Health
pub mod FileTransfer
pub mod Route
pub mod Serving
pub mod Replies
pub mod Programs
pub mod Integration
use bxp_core.Base.{
  ℕ, zero, suc, Option, some, none, List, [], ◌∷◌, Result, ok, err, map_err, Method, ◌>>=◌, ◌>>◌,
  lift,
}
use bxp_core.Base.Str.{Str}
use bxp_core.Capnp.{Capnp}
use bxp_core.Client
use bxp_core.Client.{ClientConnection, send_request, receive_response}
use bxp_core.Protocol.{BxpAction, BxpRequest, BxpResponse, BxpStatus, Error, io}
use bxp_core.Quic.{Quic}
use bxp_core.Router.{BxpHandler, BxpRouter, new, route, handle_request}
use bxp_core.Server.{
  ServerConnection, receive_request, send_response, send_data_stream, wait_for_close, accept,
  returned,
}

module _ (q : Quic) (c : Capnp) where
  unfoldable pub handle_ping : BxpHandler q
  handle_ping req = do send_response q c req.req_id BxpStatus.success; lift (ok tt)

  -- `payload` is the in-memory reader that the handler makes.
  unfoldable pub handle_file_transfer : q.Source → BxpHandler q
  handle_file_transfer payload req = do
    send_response q c req.req_id BxpStatus.success
    send_data_stream q req.req_id payload
    lift (ok tt)

  -- One round on a received request, or the end of the loop. The result of the handler is dropped.
  unfoldable pub serve_round :
      BxpRouter q
      → (ServerConnection q → Option (ServerConnection q))
      → Result Error BxpRequest
      → ServerConnection q
      → Option (ServerConnection q)
  serve_round router again (ok request) s = again (handle_request q c router request s).1
  serve_round router again (err e) s = some s

  -- The loop with fuel for the rounds; `none` means that the fuel ran out.
  unfoldable pub serve : ℕ → BxpRouter q → ServerConnection q → Option (ServerConnection q)
  serve zero router s = none
  serve (suc n) router s =
      serve_round router (serve n router) (receive_request q c s).0 (receive_request q c s).1

  -- The router of `test_router_ping_and_404`, with "bxp://ping".
  unfoldable pub ping_router : Str → BxpRouter q
  ping_router uri = route BxpAction.ping uri handle_ping new

  -- The client of examples/file-transfer.rs: only after `Success` it reads a data stream.
  unfoldable pub read_payload :
      BxpStatus → Method Error (ClientConnection q) (Option (ℕ × q.RecvStream))
  read_payload BxpStatus.success = do stream ← Client.read_data_stream q; lift (ok (some stream))
  read_payload _ = lift (ok none)

  unfoldable pub download :
      ℕ → Str → Method Error (ClientConnection q) (BxpResponse × Option (ℕ × q.RecvStream))
  download req_id uri = do
    send_request q c req_id BxpAction.fetch uri
    res ← receive_response q c
    payload ← read_payload res.status
    lift (ok (res, payload))

  -- The router of `test_data_stream_transfer`, with "bxp://file".
  unfoldable pub file_router : Str → q.Source → BxpRouter q
  file_router uri payload = route BxpAction.fetch uri (handle_file_transfer payload) new

module _ (q : Quic) where
  -- `tokio::io::copy` of a data stream to `downloaded_data`; the stream is dropped behind it.
  abbrev pub save : q.RecvStream → Method Error (ClientConnection q) (List ℕ)
  save network_stream s = (
    map_err io (q.copy_in network_stream).0,
    record s { quic_conn = q.drop_recv (q.copy_in network_stream).1 s.quic_conn },
  )

  -- The next data stream, by its request id and all that it delivers.
  unfoldable pub take_stream : Method Error (ClientConnection q) (ℕ × List ℕ)
  take_stream = do
    stream ← Client.read_data_stream q
    downloaded_data ← save stream.1
    lift (ok (stream.0, downloaded_data))

  -- What a task does when the serving loop has ended.
  abbrev pub waiting : Option (ServerConnection q) → Option (ServerConnection q)
  waiting none = none
  waiting (some s) = some (wait_for_close q s)

  abbrev hand_over :
      ServerConnection q
      → Option (List (ServerConnection q) × q.Endpoint)
      → Option (List (ServerConnection q) × q.Endpoint)
  hand_over connection none = none
  hand_over connection (some (rest, server)) = some (connection ∷ rest, server)

  -- One round of the accept loop, on what `accept` returned.
  unfoldable pub accept_round :
      (q.Endpoint → Option (List (ServerConnection q) × q.Endpoint))
      → Option (ServerConnection q)
      → q.Endpoint
      → Option (List (ServerConnection q) × q.Endpoint)
  accept_round again (some connection) server = hand_over connection (again server)
  accept_round again none server = some ([], server)

  -- `while let Some(mut connection) = server.accept().await`: the connections that were each handed
  -- to a task of their own, in order, and the endpoint when the loop ends. The loop has fuel for
  -- its rounds; `none` means that the fuel ran out.
  unfoldable pub accept_loop : ℕ → q.Endpoint → Option (List (ServerConnection q) × q.Endpoint)
  accept_loop zero server = none
  accept_loop (suc n) server =
      accept_round (accept_loop n) (returned q (accept q server).0) (accept q server).1
