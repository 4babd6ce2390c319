-- ===== src/System.antt =====
-- A client of src/client.rs and the serving loop of examples/ on one control stream, with the
-- network between them, as a step relation: the client may send further requests before it has
-- read the responses, bytes arrive in pieces of any size, and the two ends run in any order. A
-- call that awaits more bytes than have arrived makes no step.
pub mod Invariant
pub mod Oldest
pub mod Steps
pub mod Order
pub mod Drain
pub mod Liveness
pub mod Data
pub mod Loss
pub mod Service
pub mod Sequential
use bxp_core.Base.{ℕ, ◌≡◌, Bool, true, false, List, [], ◌∷◌, ◌++◌, Result, ok, err, length, drop}
use bxp_core.Capnp.{Capnp, IsCapnp}
use bxp_core.Client.{ClientConnection, send_request, receive_response}
use bxp_core.Exchange.Request.{IsSendable}
use bxp_core.Exchange.Response.{IsReply}
use bxp_core.Exchange.Script.{reply}
use bxp_core.Frame.Reading.{message, next_frame, next_unlimited}
use bxp_core.Frame.Prefix.{IsFound}
use bxp_core.Protocol.{BxpRequest, BxpResponse, BxpStatus, Error}
use bxp_core.Quic.{Quic, IsQuic}
use bxp_core.Router.{BxpRouter, handle_request}
use bxp_core.Server.{ServerConnection, max_control_msg, receive_request}

-- The arrival of bytes at a receive stream. Between two arrivals `pending` is what has arrived and
-- was not read.
pub record Network {q : Quic} (spec : IsQuic q) : Type 0 where
  pub arrive : List ℕ → q.RecvStream → q.RecvStream
  pub pending-arrive :
      (bs : List ℕ) (r : q.RecvStream) → spec.pending (arrive bs r) ≡ spec.pending r ++ bs

pub record World (q : Quic) : Type 0 where
  pub client : ClientConnection q
  pub server : ServerConnection q
  -- Whether the serving loop still runs.
  pub serving : Bool
  -- The bytes on their way to the server, and to the client.
  pub up : List ℕ
  pub down : List ℕ
  -- What the client has sent, and what its calls of `receive_response` have returned.
  pub asked : List BxpRequest
  pub received : List (Result Error BxpResponse)

-- What a call has appended.
abbrev pub appended : {A : Type 0} → List A → List A → List A
appended before after = drop (length before) after

module _ (q : Quic) (c : Capnp) where
  abbrev pub after_send : BxpRequest → World q → ClientConnection q
  after_send r w = (send_request q c r.req_id r.action r.uri w.client).1

  abbrev pub after_serve : BxpRouter q → BxpRequest → World q → ServerConnection q
  after_serve router r w = (handle_request q c router r (receive_request q c w.server).1).1

-- The parts of the system, with the policy that the router is meant to have.
pub record Parts : Type 1 where
  pub q : Quic
  pub c : Capnp
  pub spec : IsQuic q
  pub codec : IsCapnp c
  pub network : Network spec
  pub router : BxpRouter q
  pub status : BxpRequest → BxpStatus

module _ (p : Parts) (w : World p.q) where
  -- The world after each kind of step.
  abbrev pub arrived_up : List ℕ → List ℕ → World p.q
  arrived_up bs rest = record w {
    server = record w.server { control_recv = p.network.arrive bs w.server.control_recv };
    up = rest;
  }

  abbrev pub arrived_down : List ℕ → List ℕ → World p.q
  arrived_down bs rest = record w {
    client = record w.client { control_recv = p.network.arrive bs w.client.control_recv };
    down = rest;
  }

  -- The handler runs on the request; its result is dropped.
  abbrev pub served : BxpRequest → World p.q
  served r = record w {
    server = after_serve p.q p.c p.router r w;
    down =
        w.down
        ++ appended (p.spec.written w.server.control_send)
            (p.spec.written (after_serve p.q p.c p.router r w).control_send);
  }

  abbrev pub stopped : World p.q
  stopped = record w { server = (receive_request p.q p.c w.server).1; serving = false }

  abbrev pub read : World p.q
  read = record w {
    client = (receive_response p.q p.c w.client).1;
    received = w.received ++ ((receive_response p.q p.c w.client).0 ∷ []);
  }

  abbrev pub sent : BxpRequest → World p.q
  sent r = record w {
    client = after_send p.q p.c r w;
    up =
        w.up
        ++ appended (p.spec.written w.client.control_send)
            (p.spec.written (after_send p.q p.c r w).control_send);
    asked = w.asked ++ (r ∷ []);
  }

-- A step of the network, of the serving loop, or of the client that reads a response.
pub data Work (p : Parts) (w : World p.q) : World p.q → Type 0 where
  arrive_up : (bs rest : List ℕ) → w.up ≡ bs ++ rest → Work p w (arrived_up p w bs rest)
  arrive_down : (bs rest : List ℕ) → w.down ≡ bs ++ rest → Work p w (arrived_down p w bs rest)
  -- A whole frame has arrived, and it is a request.
  serve :
      (r : BxpRequest) (body rest : List ℕ)
      → w.serving ≡ true
      → next_frame max_control_msg (p.spec.pending w.server.control_recv) ≡ message body rest
      → (receive_request p.q p.c w.server).0 ≡ ok r
      → Work p w (served p w r)
  -- What has arrived makes `receive_request` fail, and the loop ends.
  stop :
      (e : Error)
      → w.serving ≡ true
      → IsFound (next_frame max_control_msg (p.spec.pending w.server.control_recv))
      → (receive_request p.q p.c w.server).0 ≡ err e
      → Work p w (stopped p w)
  -- A whole frame has arrived at the client.
  receive : IsFound (next_unlimited (p.spec.pending w.client.control_recv)) → Work p w (read p w)

-- A request that both ends can handle, with its response.
abbrev pub IsServable : Parts → BxpRequest → Type 0
IsServable p r = IsSendable p.codec r × IsReply p.codec (reply p.status r)

pub data Step (p : Parts) (w : World p.q) : World p.q → Type 0 where
  work : {t : World p.q} → Work p w t → Step p w t
  send : (r : BxpRequest) → IsServable p r → Step p w (sent p w r)

-- Any number of steps of the first kind, and of both.
pub data Works (p : Parts) : World p.q → World p.q → Type 0 where
  idle : {w : World p.q} → Works p w w
  more : {w t u : World p.q} → Work p w t → Works p t u → Works p w u

pub data Reach (p : Parts) (w : World p.q) : World p.q → Type 0 where
  start : Reach p w w
  later : {t u : World p.q} → Reach p w t → Step p t u → Reach p w u
