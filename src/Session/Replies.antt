-- ===== src/Session/Replies.antt =====
-- A client that sends requests to the server of tests/integration.rs, from end to end.
use bxp_core.Base.{ℕ, ◌<◌, ◌≡◌, ◌∙◌, ap, Option, some, none, List, [], ◌++◌, length}
use bxp_core.Base.Str.{Str}
use bxp_core.Capnp.{Capnp, IsCapnp}
use bxp_core.Client.{ClientConnection}
use bxp_core.Exchange.Script.{
  request_frames, reply_frames, AllServable, IsReady, send_all, receive_all, replies,
  written-send_all, receive_all-reply_frames,
}
use bxp_core.Protocol.{BxpRequest}
use bxp_core.Quic.{Quic, IsQuic}
use bxp_core.Server.{ServerConnection}
use bxp_core.Session.{serve, ping_router}
use bxp_core.Session.Handlers.{ping_status, ping_router-Answers}
use bxp_core.Session.Serving.{IsOpen, serve-request_frames}

module _ {q : Quic} {c : Capnp} (spec : IsQuic q) (codec : IsCapnp c) where
  -- What the client can read of a connection that was served to its end.
  abbrev pub output : Option (ServerConnection q) → List ℕ
  output none = []
  output (some t) = spec.written t.control_send

  -- A client sends any number of requests that can be served (ids below 2 ^ 32, URIs that Cap'n
  -- Proto can hold as text, messages of at most 1 MB, and responses within the reader's traversal
  -- limit) on a new control stream, the server with a ping route reads exactly what the client
  -- wrote, and the client reads exactly what the server wrote. Then the serving loop, with fuel
  -- for more rounds than there are requests, ends, and the client receives one response for each
  -- request, in order, with its id: `success` for a ping of the registered URI, and `not_found`
  -- for all else.
  pub ping_session :
      (uri : Str) (rs : List BxpRequest) (n : ℕ) (client later : ClientConnection q)
      (server : ServerConnection q)
      → AllServable codec (ping_status uri) rs
      → IsReady spec codec client
      → IsOpen spec server
      → spec.written client.control_send ≡ []
      → spec.written server.control_send ≡ []
      → spec.pending server.control_recv ≡ spec.written (send_all q c rs client).control_send
      → spec.pending later.control_recv ≡ output (serve q c n (ping_router q c uri) server)
      → length rs < n
      → ((t : ServerConnection q) × (serve q c n (ping_router q c uri) server ≡ some t))
        × (receive_all q c (length rs) later ≡ replies (ping_status uri) rs)
  ping_session uri rs n client later server h ready open_ none_sent none_written arrived back
        enough =
      let sent =
        written-send_all spec codec (ping_status uri) rs client h ready
        ∙ ap (λ w. w ++ request_frames codec rs) none_sent in
      let (t, done, wrote, left) =
        serve-request_frames spec codec n (ping_router q c uri) (ping_status uri) rs server
          (ping_router-Answers spec codec uri) h open_ (arrived ∙ sent) enough in
      let owed = wrote ∙ ap (λ w. w ++ reply_frames codec (ping_status uri) rs) none_written in
      (
        (t, done),
        receive_all-reply_frames spec codec (ping_status uri) rs later h
            (back ∙ ap output done ∙ owed),
      )
