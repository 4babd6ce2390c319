-- ===== src/Session/Programs.antt =====
-- The function `main` of the three programs under examples/: the server is set up and accepts in a
-- task of its own, and then the client connects and runs. All pass empty paths to `bind`.
use bxp_core.Base.{
  ℕ, ◌<◌, ◌≡◌, refl, Bool, true, false, Option, none, some, [], List, ◌∷◌, Result, ok, err,
  and_then,
}
use bxp_core.Base.Str.{Str, codes}
use bxp_core.Capnp.{Capnp, IsCapnp}
use bxp_core.Client.{ClientConnection}
use bxp_core.Exchange.Script.{AllServable, IsReady}
use bxp_core.Protocol.{Error, cert_read}
use bxp_core.Quic.{Quic, IsQuic}
use bxp_core.Server.{ServerConnection, accept, returned}
use bxp_core.Session.{serve, accept_loop}
use bxp_core.Session.Accepting.{Accepts, accept_loop-Accepts}
use bxp_core.Session.Benchmark.{Ending, benchmark_router, benchmark_client}
use bxp_core.Session.Benchmark.Library.{Std}
use bxp_core.Session.FileTransfer.{Outcome, movie_task, movie_client}
use bxp_core.Session.Handlers.{ping_status}
use bxp_core.Session.Health.{
  connection_task, ask_health, health_client, health_check, health_session,
}
use bxp_core.Session.Replies.{output}
use bxp_core.Session.Serving.{IsOpen}
use bxp_core.Setup.{bind, connect, build_server_tls, server_tls}
use bxp_core.Setup.Net.{Net}

module _ (q : Quic) where
  abbrev each :
      (ServerConnection q → Option (ServerConnection q))
      → List (ServerConnection q)
      → List (Option (ServerConnection q))
  each task [] = []
  each task (connection ∷ rest) = task connection ∷ each task rest

  abbrev spawned :
      (ServerConnection q → Option (ServerConnection q))
      → Option (List (ServerConnection q) × q.Endpoint)
      → Option (List (Option (ServerConnection q)))
  spawned task none = none
  spawned task (some (connections, server)) = some (each task connections)

  -- The accept loop, which gives each connection to a task of its own: what each task came to.
  unfoldable pub accept_tasks :
      ℕ
      → (ServerConnection q → Option (ServerConnection q))
      → q.Endpoint
      → Option (List (Option (ServerConnection q)))
  accept_tasks accepts task server = spawned task (accept_loop q accepts server)

  -- What the tasks of the server came to, and how the client ended, with its endpoint.
  abbrev pub Ran : Type 0 → Type 0
  Ran A = Option (List (Option (ServerConnection q))) × (A × (q.Connection × q.Endpoint))

module _ {q : Quic} (n : Net q) where
  unfoldable pub program :
      {A : Type 0}
      → Str
      → ℕ
      → (ServerConnection q → Option (ServerConnection q))
      → (ClientConnection q → A × (q.Connection × q.Endpoint))
      → Bool
      → Result Error (Ran q A)
  program addr accepts task body insecure = and_then (bind n insecure addr [] []) λ server.
      and_then (connect n insecure addr (codes "localhost"))
        λ client. ok (accept_tasks q accepts task server, body client)

module _ {q : Quic} (n : Net q) (c : Capnp) (accepts rounds : ℕ) where
  unfoldable pub health_main : Bool → Result Error (Ran q (Result Error Bool))
  health_main =
      program n (codes "127.0.0.1:4433") accepts (connection_task q c rounds) (health_client q c)

  -- With the file that every handler sends.
  unfoldable pub movie_main : q.Source → Bool → Result Error (Ran q Outcome)
  movie_main dummy_file =
      program n (codes "127.0.0.1:4434") accepts (movie_task q c rounds dummy_file)
        (movie_client q c)

  unfoldable pub benchmark_main : (std : Std) → ℕ → std.Clock → Bool → Result Error (Ran q Ending)
  benchmark_main std num_requests t =
      program n (codes "127.0.0.1:4435") accepts (serve q c rounds (benchmark_router q c))
        λ client. benchmark_client q c std num_requests (client, t)

module _ {q : Quic} (n : Net q) where
  pub bind_unreadable :
      (addr : Str) {a : n.SocketAddr} {e : ℕ}
      → n.parse_addr addr ≡ ok a
      → n.read_file [] ≡ err e
      → bind n false addr [] [] ≡ err (cert_read [] e)
  unfolding bind server_tls build_server_tls
  bind_unreadable addr parsed unreadable = rw (parsed, unreadable) refl

  program_unreadable :
      {A : Type 0} (addr : Str) (accepts : ℕ)
      (task : ServerConnection q → Option (ServerConnection q))
      (body : ClientConnection q → A × (q.Connection × q.Endpoint)) {a : n.SocketAddr} {e : ℕ}
      → n.parse_addr addr ≡ ok a
      → n.read_file [] ≡ err e
      → program n addr accepts task body false ≡ err (cert_read [] e)
  unfolding program
  program_unreadable addr accepts task body parsed unreadable =
      rw (bind_unreadable addr parsed unreadable) refl

  -- Without the feature `tls-insecure`, in a file system in which the empty path cannot be read,
  -- no example program gets as far as its client: if their addresses parse, each ends with the
  -- error of reading the certificate at the empty path, whatever else the network and the clock
  -- do.
  pub main_needs_insecure :
      (c : Capnp) (accepts rounds : ℕ) (payload : q.Source) (std : Std) (num_requests : ℕ)
      (t : std.Clock) (a b d : n.SocketAddr) (e : ℕ)
      → n.parse_addr (codes "127.0.0.1:4433") ≡ ok a
      → n.parse_addr (codes "127.0.0.1:4434") ≡ ok b
      → n.parse_addr (codes "127.0.0.1:4435") ≡ ok d
      → n.read_file [] ≡ err e
      → (health_main n c accepts rounds false ≡ err (cert_read [] e))
        × (movie_main n c accepts rounds payload false ≡ err (cert_read [] e))
        × (benchmark_main n c accepts rounds std num_requests t false ≡ err (cert_read [] e))
  unfolding health_main movie_main benchmark_main
  main_needs_insecure c accepts rounds payload std num_requests t a b d e at_health at_movie
        at_benchmark unreadable =
      (
        program_unreadable (codes "127.0.0.1:4433") accepts _ _ at_health unreadable,
        program_unreadable (codes "127.0.0.1:4434") accepts _ _ at_movie unreadable,
        program_unreadable (codes "127.0.0.1:4435") accepts _ _ at_benchmark unreadable,
      )

module _ {q : Quic} {c : Capnp} (n : Net q) (spec : IsQuic q) (codec : IsCapnp c) where
  -- The whole program basic-router.rs, if `bind` and `connect` succeed, the server accepts one
  -- connection and then no more, the control streams are new and open, and the health check can be
  -- served: if the task of that connection reads exactly what the client has written when its
  -- requests are over, with fuel for more than one round, and the client reads exactly what the
  -- server has written, then `main` goes through, the task of the connection ends, and the client
  -- reports that the server is healthy and closes the connection with code 0 and the reason
  -- `Done`.
  pub health_program :
      (accepts rounds : ℕ) (insecure : Bool) (e later : q.Endpoint) (client : ClientConnection q)
      (server : ServerConnection q)
      → bind n insecure (codes "127.0.0.1:4433") [] [] ≡ ok e
      → connect n insecure (codes "127.0.0.1:4433") (codes "localhost") ≡ ok client
      → Accepts q e (server ∷ []) later
      → returned q (accept q later).0 ≡ none
      → AllServable codec (ping_status (codes "bxp://health")) (health_check ∷ [])
      → IsReady spec codec client
      → IsOpen spec server
      → spec.written client.control_send ≡ []
      → spec.written server.control_send ≡ []
      → spec.pending server.control_recv ≡ spec.written (ask_health q c client).1.control_send
      → spec.pending client.control_recv ≡ output spec codec (connection_task q c rounds server)
      → 1 < accepts
      → 1 < rounds
      → (t : ServerConnection q) × (r : Result Error Bool × (q.Connection × q.Endpoint))
        × (health_main n c accepts rounds insecure ≡ ok (some (some t ∷ []), r))
        × (r.0 ≡ ok true)
        × (spec.closed_with r.1.0 ≡ some (0, codes "Done"))
  unfolding health_main program accept_tasks
  health_program accepts rounds insecure e later client server bound dialled one no_more h ready
        open_ none_sent none_written arrived back enough_accepts enough =
      let ((t, done), healthy, closed) =
        health_session spec codec rounds client server h ready open_ none_sent none_written arrived
          back enough in
      (
        t,
        health_client q c client,
        rw (bound, dialled, accept_loop-Accepts accepts one no_more enough_accepts, done) refl,
        healthy,
        closed,
      )
