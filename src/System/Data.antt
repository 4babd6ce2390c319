-- ===== src/System/Data.antt =====
-- The data streams beside the control stream of System, on their way from the server to the client:
-- a step of System may open some, they arrive in any order, and the client reads those that have
-- arrived whenever it likes.
pub mod Owed
pub mod Invariant
pub mod Take
pub mod Control
pub mod Arrivals
pub mod Steps
pub mod Delivery
pub mod FileRouter
pub mod Quiet
pub mod Liveness
pub mod Loss
pub mod Refinement
pub mod Service
pub mod Simulation
use bxp_core.Base.{ℕ, ◌≡◌, true, List, [], ◌∷◌, ◌++◌, Result}
use bxp_core.Protocol.{BxpRequest, Error}
use bxp_core.Quic.{Quic, IsQuic}
use bxp_core.Session.{take_stream}
use bxp_core.System.{World, Parts, Work, IsServable, sent, appended}

-- The arrival of a data stream that goes on to a clean end.
pub record Landing {q : Quic} (spec : IsQuic q) : Type 0 where
  pub land : List ℕ → q.Connection → q.Connection
  pub incoming-land :
      (s : List ℕ) (c : q.Connection) → spec.incoming (land s c) ≡ spec.incoming c ++ (s ∷ [])
  pub whole-land :
      (s : List ℕ) (c : q.Connection) → spec.whole c ≡ true → spec.whole (land s c) ≡ true

pub record DataWorld (q : Quic) : Type 0 where
  pub base : World q
  -- The streams on their way to the client.
  pub flying : List (List ℕ)
  -- What the client has got of the streams that it has read.
  pub taken : List (Result Error (ℕ × List ℕ))

-- With the payloads that the router is meant to send for each request, a stream for each.
pub record DataParts : Type 1 where
  pub parts : Parts
  pub landing : Landing parts.spec
  pub payloads : BxpRequest → List (List ℕ)

module _ (p : DataParts) (w : DataWorld p.parts.q) where
  -- The server's streams of a step of System set out.
  abbrev pub moved : World p.parts.q → DataWorld p.parts.q
  moved t = record w {
    base = t;
    flying =
        w.flying
        ++ appended (p.parts.spec.delivered w.base.server.quic_conn)
            (p.parts.spec.delivered t.server.quic_conn);
  }

  abbrev pub landed : List ℕ → List (List ℕ) → DataWorld p.parts.q
  landed s others = record w {
    base = record w.base {
      client = record w.base.client { quic_conn = p.landing.land s w.base.client.quic_conn };
    };
    flying = others;
  }

  abbrev pub took : DataWorld p.parts.q
  took = record w {
    base = record w.base { client = (take_stream p.parts.q w.base.client).1 };
    taken = w.taken ++ ((take_stream p.parts.q w.base.client).0 ∷ []);
  }

-- A step without a new request.
pub data DataWork (p : DataParts) (w : DataWorld p.parts.q) : DataWorld p.parts.q → Type 0 where
  control : {t : World p.parts.q} → Work p.parts w.base t → DataWork p w (moved p w t)
  -- Any of the streams on their way is the next to arrive.
  land :
      (xs : List (List ℕ)) (s : List ℕ) (ys : List (List ℕ))
      → w.flying ≡ xs ++ (s ∷ ys)
      → DataWork p w (landed p w s (xs ++ ys))
  -- A stream has arrived that the client has not accepted.
  take :
      (s : List ℕ) (rest : List (List ℕ))
      → p.parts.spec.incoming w.base.client.quic_conn ≡ s ∷ rest
      → DataWork p w (took p w)

pub data DataStep (p : DataParts) (w : DataWorld p.parts.q) : DataWorld p.parts.q → Type 0 where
  work : {t : DataWorld p.parts.q} → DataWork p w t → DataStep p w t
  send :
      (r : BxpRequest)
      → IsServable p.parts r
      → DataStep p w (record w { base = sent p.parts w.base r })

pub data DataWorks (p : DataParts) : DataWorld p.parts.q → DataWorld p.parts.q → Type 0 where
  idle : {w : DataWorld p.parts.q} → DataWorks p w w
  more : {w t u : DataWorld p.parts.q} → DataWork p w t → DataWorks p t u → DataWorks p w u

pub data DataReach (p : DataParts) (w : DataWorld p.parts.q) : DataWorld p.parts.q → Type 0 where
  start : DataReach p w w
  later : {t u : DataWorld p.parts.q} → DataReach p w t → DataStep p t u → DataReach p w u
