-- ===== src/System/Data/Invariant.antt =====
-- What holds in every state that the system with its data streams reaches: the streams that are
-- owed for the requests that were served are those that the client has read, those that have
-- arrived, and those on their way.
use bxp_core.Base.{ℕ, ◌≡◌, true, List, [], ◌++◌}
use bxp_core.Capnp.{Capnp, IsCapnp}
use bxp_core.Exchange.Response.{IsReply}
use bxp_core.Exchange.Script.{reply}
use bxp_core.Exchange.Streams.{tagged, AllIds}
use bxp_core.Protocol.{BxpRequest, BxpStatus}
use bxp_core.Quic.{Quic, IsQuic}
use bxp_core.Router.{BxpRouter, handle_request}
use bxp_core.Server.{ServerConnection}
use bxp_core.Session.Serving.{IsOpen}
use bxp_core.System.Data.{DataWorld, DataParts}
use bxp_core.System.Data.Owed.{under, owed, all_read}
use bxp_core.System.Invariant.{Inv, IsGood, IsNew, IsNew-Inv}
use mathlib.Core.List.{Permᴰ}

module _ {q : Quic} {c : Capnp} (spec : IsQuic q) (codec : IsCapnp c) where
  -- On a live connection the router sends exactly the data streams of its policy for each request,
  -- under the id of the request.
  abbrev pub Streams :
      BxpRouter q → (BxpRequest → BxpStatus) → (BxpRequest → List (List ℕ)) → Type 0
  Streams router status payloads =
      (r : BxpRequest) (s : ServerConnection q)
      → IsReply codec (reply status r)
      → IsOpen spec s
      → spec.alive s.quic_conn ≡ true
      → let t = (handle_request q c router r s).1 in
        (spec.delivered t.quic_conn
          ≡ spec.delivered s.quic_conn ++ tagged (under r.req_id (payloads r)))
        × (spec.alive t.quic_conn ≡ true)

-- The router answers and sends data streams by its policies.
abbrev pub IsDataGood : DataParts → Type 0
IsDataGood p =
    IsGood p.parts × Streams p.parts.spec p.parts.codec p.parts.router p.parts.status p.payloads

pub record DataInv (p : DataParts) (w : DataWorld p.parts.q)
    (done answered waiting : List BxpRequest) : Type 0 where
  pub base : Inv p.parts w.base done answered waiting
  -- The ids and payloads of the streams: read, arrived, on their way.
  pub got : List (ℕ × List ℕ)
  pub here : List (ℕ × List ℕ)
  pub flown : List (ℕ × List ℕ)
  pub taken : w.taken ≡ all_read got
  pub incoming : p.parts.spec.incoming w.base.client.quic_conn ≡ tagged here
  pub flying : w.flying ≡ tagged flown
  pub here_ids : AllIds here
  pub flown_ids : AllIds flown
  pub sorted : Permᴰ (owed p.payloads (done ++ answered)) (got ++ (here ++ flown))
  pub live : p.parts.spec.alive w.base.server.quic_conn ≡ true
  pub whole : p.parts.spec.whole w.base.client.quic_conn ≡ true

-- The same for some division of the requests.
pub record IsDataSound (p : DataParts) (w : DataWorld p.parts.q) : Type 0 where
  pub done : List BxpRequest
  pub answered : List BxpRequest
  pub waiting : List BxpRequest
  pub inv : DataInv p w done answered waiting

-- A new connection without data streams, that stays up.
pub record IsDataNew (p : DataParts) (w : DataWorld p.parts.q) : Type 0 where
  pub base : IsNew p.parts w.base
  pub none_taken : w.taken ≡ []
  pub none_here : p.parts.spec.incoming w.base.client.quic_conn ≡ []
  pub none_flying : w.flying ≡ []
  pub live : p.parts.spec.alive w.base.server.quic_conn ≡ true
  pub whole : p.parts.spec.whole w.base.client.quic_conn ≡ true

unfoldable pub IsDataNew-IsDataSound :
    (p : DataParts) (w : DataWorld p.parts.q) → IsDataNew p w → IsDataSound p w
unfolding tagged
IsDataNew-IsDataSound p w h = record {
  done = [];
  answered = [];
  waiting = [];
  inv = record {
    base = IsNew-Inv p.parts w.base h.base;
    got = [];
    here = [];
    flown = [];
    taken = h.none_taken;
    incoming = h.none_here;
    flying = h.none_flying;
    here_ids = tt;
    flown_ids = tt;
    sorted = Permᴰ.nil;
    live = h.live;
    whole = h.whole;
  };
}
