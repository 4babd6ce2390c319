-- ===== src/System/Loss.antt =====
-- The control stream of a connection that may be lost at any time, on both sides at once: what was
-- on its way never arrives, a part of what had arrived may be gone too, and the sending sides are
-- left in any state. The calls that read see what is left of their streams and then an end, the
-- serving loop goes on until `receive_request` fails, and the client may call on.
pub mod Invariant
pub mod Server
pub mod Client
pub mod Steps
pub mod Safety
pub mod Ends
use bxp_core.Base.{◌≡◌, Bool, true, false, List, [], ◌∷◌, ◌++◌, ℕ, ok, err}
use bxp_core.Client.{ClientConnection}
use bxp_core.Protocol.{BxpRequest, Error}
use bxp_core.Quic.{Quic}
use bxp_core.Server.{ServerConnection, receive_request}
use bxp_core.System.{World, Parts, Work, IsServable, sent, read, stopped, after_send, after_serve}

pub record LossWorld (q : Quic) : Type 0 where
  -- Bytes on their way stay there once the connection is lost.
  pub base : World q
  pub is_lost : Bool
  -- What the router was called with.
  pub handled : List BxpRequest

module _ {p : Parts} where
  -- The request that a step hands to the router.
  abbrev pub handles : {w t : World p.q} → Work p w t → List BxpRequest
  handles (Work.serve r body rest run found got) = r ∷ []
  handles _ = []

module _ (p : Parts) (w : LossWorld p.q) where
  abbrev pub lost : ClientConnection p.q → ServerConnection p.q → List ℕ → List ℕ → LossWorld p.q
  lost client server gone_up gone_down = record w {
    base = record w.base {
      client = client;
      server = server;
      up = gone_up ++ w.base.up;
      down = gone_down ++ w.base.down;
    };
    is_lost = true;
  }

  -- What the handler writes does not get to the client.
  abbrev pub served_late : BxpRequest → LossWorld p.q
  served_late r = record w {
    base = record w.base { server = after_serve p.q p.c p.router r w.base };
    handled = w.handled ++ (r ∷ []);
  }

  abbrev pub sent_late : BxpRequest → LossWorld p.q
  sent_late r = record w {
    base = record w.base { client = after_send p.q p.c r w.base; asked = w.base.asked ++ (r ∷ []) };
  }

pub data LossStep (p : Parts) (w : LossWorld p.q) : LossWorld p.q → Type 0 where
  -- While the connection is up, the steps of System.
  work :
      {t : World p.q} (m : Work p w.base t)
      → w.is_lost ≡ false
      → LossStep p w (record w { base = t; handled = w.handled ++ handles m })
  send :
      (r : BxpRequest)
      → w.is_lost ≡ false
      → IsServable p r
      → LossStep p w (record w { base = sent p w.base r })
  lose :
      (client : ClientConnection p.q) (server : ServerConnection p.q) (gone_up gone_down : List ℕ)
      → w.is_lost ≡ false
      → p.spec.pending w.base.server.control_recv ≡ p.spec.pending server.control_recv ++ gone_up
      → p.spec.pending w.base.client.control_recv ≡ p.spec.pending client.control_recv ++ gone_down
      → LossStep p w (lost p w client server gone_up gone_down)
  -- Once it is lost, no call waits.
  serve_late :
      (r : BxpRequest)
      → w.is_lost ≡ true
      → w.base.serving ≡ true
      → (receive_request p.q p.c w.base.server).0 ≡ ok r
      → LossStep p w (served_late p w r)
  stop_late :
      (e : Error)
      → w.is_lost ≡ true
      → w.base.serving ≡ true
      → (receive_request p.q p.c w.base.server).0 ≡ err e
      → LossStep p w (record w { base = stopped p w.base })
  read_late : w.is_lost ≡ true → LossStep p w (record w { base = read p w.base })
  send_late : (r : BxpRequest) → w.is_lost ≡ true → LossStep p w (sent_late p w r)

pub data LossReach (p : Parts) (w : LossWorld p.q) : LossWorld p.q → Type 0 where
  start : LossReach p w w
  later : {t u : LossWorld p.q} → LossReach p w t → LossStep p t u → LossReach p w u
