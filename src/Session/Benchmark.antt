-- ===== src/Session/Benchmark.antt =====
-- The client of examples/benchmark.rs, which waits for each response before it sends the next
-- request and measures how long that takes, against the server of that program.
pub mod Library
pub mod Measured
pub mod Sent
use bxp_core.Base.{
  ℕ, zero, suc, ◌≡◌, refl, ap, List, [], ◌∷◌, ◌++◌, length, get_elem?, Option, some, Result, err,
  Method, ◌-◌, ◌*◌, ◌/◌, ok, lift, ◌>>◌, ◌>>=◌,
}
use bxp_core.Base.Str.{codes}
use bxp_core.Capnp.{Capnp}
use bxp_core.Client
use bxp_core.Client.{ClientConnection, send_request, receive_response}
use bxp_core.Protocol.{BxpAction, BxpRequest, BxpStatus, Error}
use bxp_core.Quic.{Quic}
use bxp_core.Router.{BxpHandler, BxpRouter, new, route}
use bxp_core.Server.{send_response}
use bxp_core.Session.{handle_ping, ping_router}
use bxp_core.Session.Benchmark.Library.{Std}

abbrev pub ping_at : ℕ → BxpRequest
ping_at i = record { req_id = i; action = BxpAction.ping; uri = codes "bxp://benchmark" }

-- The requests of the loop, from number `i` on.
abbrev pub pings : ℕ → ℕ → List BxpRequest
pings i zero = []
pings i (suc n) = ping_at i ∷ pings (suc i) n

pub length-pings : (i n : ℕ) → length (pings i n) ≡ n
length-pings i zero = refl
length-pings i (suc n) = ap suc (length-pings (suc i) n)

module _ (q : Quic) (c : Capnp) where
  unfoldable pub handle_benchmark_ping : BxpHandler q
  handle_benchmark_ping req = do send_response q c req.req_id BxpStatus.success; lift (ok tt)

  unfoldable pub benchmark_router : BxpRouter q
  benchmark_router = route BxpAction.ping (codes "bxp://benchmark") handle_benchmark_ping new

  pub benchmark_router-ping_router : benchmark_router ≡ ping_router q c (codes "bxp://benchmark")
  unfolding benchmark_router ping_router handle_benchmark_ping handle_ping
  benchmark_router-ping_router = refl

-- What the program prints: durations.
pub record Report : Type 0 where
  pub total_time : ℕ
  pub p50 : ℕ
  pub p90 : ℕ
  pub p99 : ℕ

-- How the client ends: with an error, with the panic of an index out of range, or with a report.
pub data Ending : Type 0 where
  failed : Error → Ending
  panicked : Ending
  reported : Report → Ending

module _ (q : Quic) (c : Capnp) (std : Std) where
  -- The connection and the clock.
  abbrev on_client :
      {A : Type 0}
      → Method Error (ClientConnection q) A
      → Method Error (ClientConnection q × std.Clock) A
  on_client m (s, t) = ((m s).0, ((m s).1, t))

  abbrev instant_now : Method Error (ClientConnection q × std.Clock) ℕ
  instant_now (s, t) = (ok (std.now t).0, (s, (std.now t).1))

  -- The loop from request `i` on, for so many requests, with the latencies so far.
  unfoldable pub benchmark_loop :
      ℕ → ℕ → List ℕ → Method Error (ClientConnection q × std.Clock) (List ℕ)
  benchmark_loop i zero latencies = lift (ok latencies)
  benchmark_loop i (suc n) latencies = do
    req_start ← instant_now
    on_client (send_request q c i BxpAction.ping (codes "bxp://benchmark"))
    on_client (receive_response q c)
    req_end ← instant_now
    benchmark_loop (suc i) n (latencies ++ ((req_end - req_start) ∷ []))

  unfoldable pub measured : ℕ → Method Error (ClientConnection q × std.Clock) (ℕ × List ℕ)
  measured num_requests = do
    benchmark_start ← instant_now
    latencies ← benchmark_loop 0 num_requests []
    benchmark_end ← instant_now
    lift (ok (benchmark_end - benchmark_start, std.sort latencies))

  -- The index of a percentile. The program takes the product with 0.50, 0.90 or 0.99 in floating
  -- point; for its 10,000 requests that is 5000, 9000 and 9900, as here.
  unfoldable pub percentile : ℕ → ℕ → List ℕ → Option ℕ
  percentile num_requests percent latencies = get_elem? latencies (num_requests * percent / 100)

  abbrev pub report : ℕ → Option ℕ → Option ℕ → Option ℕ → Ending
  report total_time (some p50) (some p90) (some p99) =
      Ending.reported (record { total_time = total_time; p50 = p50; p90 = p90; p99 = p99 })
  report total_time _ _ _ = Ending.panicked

  -- The report is followed by the close; an error or a panic ends the client without it.
  abbrev pub concluded : Ending → ClientConnection q → Ending × (q.Connection × q.Endpoint)
  concluded (Ending.reported r) s = (Ending.reported r, Client.close q s)
  concluded e s = (e, (s.quic_conn, s.endpoint))

  abbrev pub evaluated :
      ℕ
      → Result Error (ℕ × List ℕ) × (ClientConnection q × std.Clock)
      → Ending × (q.Connection × q.Endpoint)
  evaluated num_requests (err e, (s, t)) = concluded (Ending.failed e) s
  evaluated num_requests (ok (total_time, latencies), (s, t)) =
      concluded
        (report total_time (percentile num_requests 50 latencies)
          (percentile num_requests 90 latencies) (percentile num_requests 99 latencies))
        s

  -- The client on an established connection.
  unfoldable pub benchmark_client :
      ℕ → ClientConnection q × std.Clock → Ending × (q.Connection × q.Endpoint)
  benchmark_client num_requests s = evaluated num_requests (measured num_requests s)
