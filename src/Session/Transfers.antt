-- ===== src/Session/Transfers.antt =====
-- Fetches that are answered by a data stream each, from end to end: the server and the client of
-- `test_data_stream_transfer` in tests/integration.rs, for any number of requests and any URI.
use bxp_core.Base.{
  ℕ, zero, suc, ◌<◌, ◌≡◌, refl, ◌∙◌, ap, sym, true, Option, some, none, List, [], ◌∷◌, ◌++◌,
  append-nil, append_assoc, length, arith,
}
use bxp_core.Base.Bytes.{to_le_bytes}
use bxp_core.Base.Str.{Str, str_eq_refl}
use bxp_core.Capnp.{Capnp, IsCapnp}
use bxp_core.Client.{ClientConnection}
use bxp_core.Exchange.Request.{receive_request-frame}
use bxp_core.Exchange.Response.{response_payload}
use bxp_core.Exchange.Script.{
  request_frames, reply, reply_frames, AllServable, IsReady, send_all, receive_all, replies,
  written-send_all, receive_all-reply_frames,
}
use bxp_core.Exchange.Streams.{tagged, AllIds, Yields, client_reads}
use bxp_core.Exchange.Streams.Reordered.{client_reads-rearranged}
use bxp_core.Frame.{frame}
use bxp_core.Protocol.{BxpAction, BxpRequest, BxpStatus, action_eq}
use bxp_core.Quic.{Quic, IsQuic}
use bxp_core.Router.{new, handle_request}
use bxp_core.Router.Laws.{find-route}
use bxp_core.Router.Dispatch.{handle_request-some}
use bxp_core.Server.{ServerConnection, receive_request}
use bxp_core.Server.Receive.{receive_request_passive, receive_request_at_end}
use bxp_core.Session.{serve, serve_round, file_router, handle_file_transfer}
use bxp_core.Session.Handlers.{handle_file_transfer_lem}
use bxp_core.Session.Replies.{output}
use bxp_core.Session.Serving.{IsOpen}
use mathlib.Core.List.{Permᴰ}

abbrev pub fetch_file : Str → ℕ → BxpRequest
fetch_file uri req_id = record { req_id = req_id; action = BxpAction.fetch; uri = uri }

-- The requests that fetch one URI, by their ids.
abbrev pub fetches : Str → List ℕ → List BxpRequest
fetches uri [] = []
fetches uri (req_id ∷ ids) = fetch_file uri req_id ∷ fetches uri ids

abbrev pub granted : BxpRequest → BxpStatus
granted r = BxpStatus.success

-- The data streams that are owed for them, by id and payload.
abbrev pub owed_streams : List ℕ → List ℕ → List (ℕ × List ℕ)
owed_streams payload [] = []
owed_streams payload (req_id ∷ ids) = (req_id, payload) ∷ owed_streams payload ids

module _ {q : Quic} {c : Capnp} (spec : IsQuic q) (codec : IsCapnp c) where
  -- What the client can accept of a connection that was served to its end.
  abbrev pub streams : Option (ServerConnection q) → List (List ℕ)
  streams none = []
  streams (some t) = spec.delivered t.quic_conn

module _ {q : Quic} {c : Capnp} (spec : IsQuic q) (codec : IsCapnp c) (uri : Str) where
  pub dispatch_fetch :
      (payload : q.Source) (req_id : ℕ) (s : ServerConnection q)
      → handle_request q c (file_router q c uri payload) (fetch_file uri req_id) s
        ≡ handle_file_transfer q c payload (fetch_file uri req_id) s
  unfolding file_router action_eq
  dispatch_fetch payload req_id s =
      handle_request-some c (file_router q c uri payload) (fetch_file uri req_id)
        (handle_file_transfer q c payload) s
        (find-route new BxpAction.fetch BxpAction.fetch uri uri (handle_file_transfer q c payload)
          ∙ rw (str_eq_refl uri) refl)

  -- A server that has only one URI registered, for the file transfer, has an open control stream on a live connection, a payload
  -- that is read to its end, and in its control stream any number of fetches of the registered URI
  -- that can be served (ids below 2 ^ 32 and messages within the limits). The loop, with fuel for
  -- more rounds than there are fetches, ends, it has answered each by `success` in order, and it
  -- has delivered one data stream for each, the request's id and then the payload, and nothing
  -- else.
  pub serve-fetches :
      (n : ℕ) (payload : q.Source) (ids : List ℕ) (s : ServerConnection q)
      → AllServable codec granted (fetches uri ids)
      → IsOpen spec s
      → spec.alive s.quic_conn ≡ true
      → spec.fails payload ≡ none
      → spec.pending s.control_recv ≡ request_frames codec (fetches uri ids)
      → length ids < n
      → (t : ServerConnection q) × (serve q c n (file_router q c uri payload) s ≡ some t)
        × (spec.written t.control_send
            ≡ spec.written s.control_send ++ reply_frames codec granted (fetches uri ids))
        × (spec.delivered t.quic_conn
            ≡ spec.delivered s.quic_conn ++ tagged (owed_streams (spec.yields payload) ids))
  unfolding serve serve_round request_frames reply_frames tagged
  serve-fetches zero payload ids s h open_ live whole p enough = elim enough [ ]
  serve-fetches (suc n) payload [] s h open_ live whole p enough =
      let (e, failed, left, same) = receive_request_at_end spec c s p in
      (
        (receive_request q c s).1,
        rw (failed, serve_round),
        rw same (sym (append-nil _)),
        rw (receive_request_passive q c s).0 (sym (append-nil _)),
      )
  serve-fetches (suc n) payload (req_id ∷ ids) s (sendable, replied, more) open_ live whole p
        enough =
      let r = fetch_file uri req_id in
      let (got, rest) =
        receive_request-frame spec codec s r (request_frames codec (fetches uri ids)) sendable p in
      let t = (receive_request q c s).1 in
      let (conn, send) = receive_request_passive q c s in
      let (res, wrote, delivered, inbox, still, up) =
        handle_file_transfer_lem spec codec r payload t replied (rw send open_) (rw conn live)
          whole in
      let u = (handle_file_transfer q c payload r t).1 in
      let (v, done, later, streams) =
        serve-fetches n payload ids u more still up whole (ap spec.pending inbox ∙ rest)
          (omega arith) in
      (
        v,
        rw (got, serve_round, dispatch_fetch payload req_id t) done,
        rw (later, wrote, send)
            (append_assoc {0} (spec.written s.control_send)
              (frame (response_payload codec (reply granted r)))
              (reply_frames codec granted (fetches uri ids))),
        rw (streams, delivered, conn)
            (append_assoc {0} (spec.delivered s.quic_conn)
              ((to_le_bytes req_id ++ spec.yields payload) ∷ [])
              (tagged (owed_streams (spec.yields payload) ids))),
      )

  length-fetches : (ids : List ℕ) → length (fetches uri ids) ≡ length ids
  length-fetches [] = refl
  length-fetches (req_id ∷ ids) = ap suc (length-fetches ids)

  length-owed_streams : (payload ids : List ℕ) → length (owed_streams payload ids) ≡ length ids
  length-owed_streams payload [] = refl
  length-owed_streams payload (req_id ∷ ids) = ap suc (length-owed_streams payload ids)

  owed_streams-AllIds :
      (payload ids : List ℕ)
      → AllServable codec granted (fetches uri ids)
      → AllIds (owed_streams payload ids)
  owed_streams-AllIds payload [] h = tt
  owed_streams-AllIds payload (req_id ∷ ids) (sendable, replied, more) =
      (sendable.id_fits, owed_streams-AllIds payload ids more)

  -- A client fetches one URI under any number of request ids, each of which can be served (an id
  -- below 2 ^ 32 and messages within the limits); a server that has only that URI registered, for
  -- the file transfer, on a new and live connection and with a payload that is read to its end,
  -- reads what the client wrote, with fuel for more rounds than there are requests; the client
  -- reads what the server wrote, and gets the server's data streams in any order. Then the client
  -- receives `success` for each request in order, and for each request id one data stream with the
  -- whole payload.
  pub fetch_session :
      (n : ℕ) (payload : q.Source) (ids : List ℕ) (client later : ClientConnection q)
      (server : ServerConnection q)
      → AllServable codec granted (fetches uri ids)
      → IsReady spec codec client
      → IsOpen spec server
      → spec.alive server.quic_conn ≡ true
      → spec.fails payload ≡ none
      → spec.written client.control_send ≡ []
      → spec.written server.control_send ≡ []
      → spec.delivered server.quic_conn ≡ []
      → spec.pending server.control_recv
        ≡ spec.written (send_all q c (fetches uri ids) client).control_send
      → spec.pending later.control_recv
        ≡ output spec codec (serve q c n (file_router q c uri payload) server)
      → Permᴰ
          (streams spec codec (serve q c n (file_router q c uri payload) server))
          (spec.incoming later.quic_conn)
      → length ids < n
      → (receive_all q c (length ids) later ≡ replies granted (fetches uri ids))
        × (arrived : List (ℕ × List ℕ)) × Permᴰ (owed_streams (spec.yields payload) ids) arrived
        × Yields spec (client_reads q (length ids) later) arrived
  fetch_session n payload ids client later server h ready open_ live whole none_sent none_written
        none_yet arrived back order enough =
      let sent =
        written-send_all spec codec granted (fetches uri ids) client h ready
        ∙ ap (λ w. w ++ request_frames codec (fetches uri ids)) none_sent in
      let (t, done, wrote, delivered) =
        serve-fetches n payload ids server h open_ live whole (arrived ∙ sent) enough in
      let owed = wrote ∙ ap (λ w. w ++ reply_frames codec granted (fetches uri ids)) none_written in
      let all =
        ap (streams spec codec) done
        ∙ delivered
        ∙ ap (λ d. d ++ tagged (owed_streams (spec.yields payload) ids)) none_yet in
      let (got, perm, reads) =
        client_reads-rearranged spec (owed_streams (spec.yields payload) ids) later
          (owed_streams-AllIds (spec.yields payload) ids h) (rw all at order) in
      (
        rw (← length-fetches ids) (
            receive_all-reply_frames spec codec granted (fetches uri ids) later h
              (back ∙ ap (output spec codec) done ∙ owed)),
        got,
        perm,
        rw (← length-owed_streams (spec.yields payload) ids) reads,
      )
