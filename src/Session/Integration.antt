-- ===== src/Session/Integration.antt =====
-- The tests of tests/integration.rs as they stand: the server that they start, the scripts of
-- their clients with each assertion, and the close at the end.
pub mod Passes
use bxp_core.Base.{
  ℕ, Bool, true, false, Option, none, some, List, [], Result, ok, err, map_err, and_then, Method,
  ◌>>=◌, ◌>>◌, lift, ◌==◌,
}
use bxp_core.Base.Str.{Str, codes, str_eq}
use bxp_core.Capnp.{Capnp}
use bxp_core.Client
use bxp_core.Client.{ClientConnection, send_request, receive_response}
use bxp_core.Protocol.{BxpAction, BxpStatus, Error}
use bxp_core.Quic.{Quic}
use bxp_core.Router.{BxpRouter}
use bxp_core.Server.{ServerConnection, accept, returned}
use bxp_core.Session.{serve, save, waiting, ping_router, file_router}
use bxp_core.Setup.{bind, local_addr, connect}
use bxp_core.Setup.Net.{Net}

-- Why a test fails: it returns an error, or an assertion panics.
pub data Failure : Type 0 where
  gave : Error → Failure
  panicked : Failure

abbrev status_eq : BxpStatus → BxpStatus → Bool
status_eq BxpStatus.success BxpStatus.success = true
status_eq BxpStatus.bad_request BxpStatus.bad_request = true
status_eq BxpStatus.unauthorized BxpStatus.unauthorized = true
status_eq BxpStatus.not_found BxpStatus.not_found = true
status_eq BxpStatus.internal_error BxpStatus.internal_error = true
status_eq _ _ = false

abbrev asserted : Bool → Result Failure (Unit {0})
asserted true = ok tt
asserted false = err Failure.panicked

module _ {S : Type 0} where
  -- A call with `?`.
  abbrev pub called : {A : Type 0} → Method Error S A → Method Failure S A
  called m s = (map_err Failure.gave (m s).0, (m s).1)

  abbrev pub assert_that : Bool → Method Failure S (Unit {0})
  assert_that b = lift (asserted b)

-- `b"Hello, BXP Zero-Copy World!"`
abbrev pub hello : List ℕ
hello = codes "Hello, BXP Zero-Copy World!"

module _ (q : Quic) (c : Capnp) where
  -- The client of `test_router_ping_and_404`.
  unfoldable pub ping_script : Method Failure (ClientConnection q) (Unit {0})
  ping_script = do
    called (send_request q c 100 BxpAction.ping (codes "bxp://ping"))
    response ← called (receive_response q c)
    assert_that (status_eq response.status BxpStatus.success)
    called (send_request q c 101 BxpAction.fetch (codes "bxp://does-not-exist"))
    response2 ← called (receive_response q c)
    assert_that (status_eq response2.status BxpStatus.not_found)

  -- The client of `test_data_stream_transfer`.
  unfoldable pub transfer_script : Method Failure (ClientConnection q) (Unit {0})
  transfer_script = do
    called (send_request q c 55 BxpAction.fetch (codes "bxp://file"))
    response ← called (receive_response q c)
    assert_that (status_eq response.status BxpStatus.success)
    stream ← called (Client.read_data_stream q)
    assert_that (stream.0 == 55)
    downloaded_data ← called (save q stream.1)
    assert_that (str_eq downloaded_data hello)

  abbrev pub closing :
      Result Failure (Unit {0}) × ClientConnection q
      → Result Failure (Unit {0}) × (q.Connection × q.Endpoint)
  closing (ok done, s) = (ok done, Client.close q s)
  closing (err e, s) = (err e, (s.quic_conn, s.endpoint))

  abbrev task_end : Option (ServerConnection q) → Option (Option (ServerConnection q))
  task_end none = none
  task_end (some s) = some (some s)

  -- The task of the server serves one connection, if `accept` returns one. The outer `none` means
  -- that the fuel of the serving loop ran out.
  abbrev test_connection :
      ℕ → BxpRouter q → Option (ServerConnection q) → Option (Option (ServerConnection q))
  test_connection rounds router none = some none
  test_connection rounds router (some connection) =
      task_end (waiting q (serve q c rounds router connection))

  abbrev pub test_task : ℕ → BxpRouter q → q.Endpoint → Option (Option (ServerConnection q))
  test_task rounds router server = test_connection rounds router (returned q (accept q server).0)

module _ {q : Quic} (n : Net q) (to_string : n.SocketAddr → Str) (c : Capnp) (rounds : ℕ) where
  -- The address, and what the task comes to.
  unfoldable pub spawn_test_server :
      BxpRouter q → Bool → Result Error (Str × Option (Option (ServerConnection q)))
  spawn_test_server router insecure =
      and_then (bind n insecure (codes "127.0.0.1:0") [] []) λ server.
        and_then (local_addr n server)
          λ addr. ok (to_string addr, test_task q c rounds router server)

  -- A test: what the task of its server comes to, and how its client ends.
  unfoldable pub test :
      BxpRouter q
      → Method Failure (ClientConnection q) (Unit {0})
      → Bool
      → Result Error (
          Option (Option (ServerConnection q))
          × (Result Failure (Unit {0}) × (q.Connection × q.Endpoint)))
  test router script insecure = and_then (spawn_test_server router insecure) λ server.
      and_then (connect n insecure server.0 (codes "localhost"))
        λ client. ok (server.1, closing q c (script client))

  unfoldable pub test_router_ping_and_404 :
      Bool
      → Result Error (
          Option (Option (ServerConnection q))
          × (Result Failure (Unit {0}) × (q.Connection × q.Endpoint)))
  test_router_ping_and_404 = test (ping_router q c (codes "bxp://ping")) (ping_script q c)

  -- With the payload that the handler makes.
  unfoldable pub test_data_stream_transfer :
      q.Source
      → Bool
      → Result Error (
          Option (Option (ServerConnection q))
          × (Result Failure (Unit {0}) × (q.Connection × q.Endpoint)))
  test_data_stream_transfer payload =
      test (file_router q c (codes "bxp://file") payload) (transfer_script q c)
