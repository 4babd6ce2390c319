-- ===== src/Examples/Served.antt =====
-- Examples for the serving loop, from end to end.
use bxp_core.Base.{◌≡◌, refl, ◌++◌, some, [], ◌∷◌, arith}
use bxp_core.Base.Str.{codes}
use bxp_core.Capnp.Plain.{plain, plain-IsCapnp}
use bxp_core.Client.{ClientConnection}
use bxp_core.Examples.{server_at, client_at, script, script-AllServable}
use bxp_core.Exchange.Script.{request_frames, reply_frames, send_all, receive_all, replies}
use bxp_core.Quic.Memory.{memory, memory-IsQuic}
use bxp_core.Server.{ServerConnection}
use bxp_core.Session.{serve, ping_router}
use bxp_core.Session.Handlers.{ping_status, ping_router-Answers, ping_router-KeepsInbox}
use bxp_core.Session.Replies.{output, ping_session}
use bxp_core.Session.Serving.{serve_ends, serve-request_frames}

abbrev serving : ServerConnection memory
serving =
    server_at (memory-IsQuic.written (send_all memory plain script (client_at [])).control_send)

abbrev reading : ClientConnection memory
reading = client_at (
    output memory-IsQuic plain-IsCapnp
      (serve memory plain 3 (ping_router memory plain (codes "bxp://ping")) serving))

ping_session_example :
    ((t : ServerConnection memory) × (serve memory plain 3
          (ping_router memory plain (codes "bxp://ping"))
          serving
        ≡ some t))
    × (receive_all memory plain 2 reading ≡ replies (ping_status (codes "bxp://ping")) script)
unfolding memory-IsQuic
ping_session_example =
    ping_session memory-IsQuic plain-IsCapnp (codes "bxp://ping") script 3 (client_at []) reading
      serving script-AllServable (refl, refl) (refl, refl) refl refl refl refl (omega arith)

serve-request_frames_example :
    (t : ServerConnection memory) × (serve memory plain 3
        (ping_router memory plain (codes "bxp://ping"))
        (server_at (request_frames plain-IsCapnp script))
      ≡ some t)
    × (memory-IsQuic.written t.control_send
        ≡ memory-IsQuic.written (server_at (request_frames plain-IsCapnp script)).control_send
          ++ reply_frames plain-IsCapnp (ping_status (codes "bxp://ping")) script)
    × (memory-IsQuic.pending t.control_recv ≡ [])
unfolding memory-IsQuic
serve-request_frames_example =
    serve-request_frames memory-IsQuic plain-IsCapnp 3
      (ping_router memory plain (codes "bxp://ping")) (ping_status (codes "bxp://ping")) script
      (server_at (request_frames plain-IsCapnp script))
      (ping_router-Answers memory-IsQuic plain-IsCapnp (codes "bxp://ping")) script-AllServable
      (refl, refl) refl (omega arith)

serve_ends_example :
    (t : ServerConnection memory) × (serve memory plain 3
        (ping_router memory plain (codes "bxp://ping"))
        (server_at (1 ∷ (2 ∷ [])))
      ≡ some t)
unfolding memory-IsQuic
serve_ends_example =
    serve_ends memory-IsQuic plain 3 (ping_router memory plain (codes "bxp://ping"))
      (server_at (1 ∷ (2 ∷ []))) (ping_router-KeepsInbox memory plain (codes "bxp://ping"))
      (omega arith)
