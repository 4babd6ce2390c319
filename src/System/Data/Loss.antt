-- ===== src/System/Data/Loss.antt =====
-- The data streams of a connection that may be lost at any time: those on their way never arrive,
-- of those that had arrived and were not read some may be gone or broken off, and the client may
-- go on with its calls.
pub mod Broken
pub mod Invariant
pub mod Steps
pub mod Safety
use bxp_core.Base.{ℕ, ◌≡◌, Bool, true, false, List, [], ◌∷◌, ◌++◌, Result, ok, err}
use bxp_core.Client.{ClientConnection}
use bxp_core.Protocol.{BxpRequest}
use bxp_core.Quic.{Quic, IsQuic}
use bxp_core.Server.{ServerConnection}
use bxp_core.System.{World, read, after_send}
use bxp_core.System.Data.{DataWorld, DataParts, DataStep, took}

-- What quinn documents of a stream that is broken off, or whose connection is lost: a reader gets an
-- error and not the end.
pub record Breaking {q : Quic} (spec : IsQuic q) : Type 0 where
  -- Of each stream of `incoming`, whether it goes on to a clean end.
  pub intact : q.Connection → List Bool
  pub accept_uni-intact :
      (c : q.Connection) (r : q.RecvStream) (b : Bool) (more : List Bool)
      → intact c ≡ b ∷ more
      → (q.accept_uni c).0 ≡ ok r
      → (spec.clean r ≡ b) × (intact (q.accept_uni c).1 ≡ more)
  pub drop_recv-intact : (r : q.RecvStream) (c : q.Connection) → intact (q.drop_recv r c) ≡ intact c
  pub copy_in-broken :
      (r : q.RecvStream) → spec.clean r ≡ false → (e : ℕ) × ((q.copy_in r).0 ≡ err e)

-- What is left of streams that had arrived, and which of it goes on to a clean end.
pub data Kept : List (List ℕ) → List (List ℕ) → List Bool → Type 0 where
  none : Kept [] [] []
  stays :
      {s : List ℕ} {before after : List (List ℕ)} {whole : List Bool}
      → Kept before after whole
      → Kept (s ∷ before) (s ∷ after) (true ∷ whole)
  -- It brings some bytes and then an error.
  breaks :
      {s : List ℕ} (bytes : List ℕ) {before after : List (List ℕ)} {whole : List Bool}
      → Kept before after whole
      → Kept (s ∷ before) (bytes ∷ after) (false ∷ whole)
  goes :
      {s : List ℕ} {before after : List (List ℕ)} {whole : List Bool}
      → Kept before after whole
      → Kept (s ∷ before) after whole

pub record LossDataWorld (q : Quic) : Type 0 where
  pub data_world : DataWorld q
  pub is_lost : Bool

module _ (p : DataParts) (w : LossDataWorld p.parts.q) where
  abbrev pub with_base : World p.parts.q → LossDataWorld p.parts.q
  with_base t = record w { data_world = record w.data_world { base = t } }

  abbrev pub lost :
      ClientConnection p.parts.q → ServerConnection p.parts.q → LossDataWorld p.parts.q
  lost client server = record w {
    data_world = record w.data_world {
      base = record w.data_world.base { client = client; server = server };
    };
    is_lost = true;
  }

pub data LossDataStep (p : DataParts) (breaking : Breaking p.parts.spec)
    (w : LossDataWorld p.parts.q) : LossDataWorld p.parts.q → Type 0 where
  -- While the connection is up, the steps with data streams.
  up :
      {t : DataWorld p.parts.q}
      → DataStep p w.data_world t
      → w.is_lost ≡ false
      → LossDataStep p breaking w (record w { data_world = t })
  lose :
      (client : ClientConnection p.parts.q) (server : ServerConnection p.parts.q)
      → w.is_lost ≡ false
      → Kept
          (p.parts.spec.incoming w.data_world.base.client.quic_conn)
          (p.parts.spec.incoming client.quic_conn)
          (breaking.intact client.quic_conn)
      → LossDataStep p breaking w (lost p w client server)
  -- Nothing that the server still does gets to the client.
  server_late :
      (server : ServerConnection p.parts.q) (serving : Bool)
      → w.is_lost ≡ true
      → LossDataStep p breaking w
          (with_base p w (record w.data_world.base { server = server; serving = serving }))
  read_late :
      w.is_lost ≡ true → LossDataStep p breaking w (with_base p w (read p.parts w.data_world.base))
  send_late :
      (r : BxpRequest)
      → w.is_lost ≡ true
      → LossDataStep p breaking w (
          with_base p w (record w.data_world.base {
            client = after_send p.parts.q p.parts.c r w.data_world.base;
            asked = w.data_world.base.asked ++ (r ∷ []);
          }))
  take_late :
      (s : List ℕ) (rest : List (List ℕ))
      → w.is_lost ≡ true
      → p.parts.spec.incoming w.data_world.base.client.quic_conn ≡ s ∷ rest
      → LossDataStep p breaking w (record w { data_world = took p w.data_world })

pub data LossDataReach (p : DataParts) (breaking : Breaking p.parts.spec)
    (w : LossDataWorld p.parts.q) : LossDataWorld p.parts.q → Type 0 where
  start : LossDataReach p breaking w w
  later :
      {t u : LossDataWorld p.parts.q}
      → LossDataReach p breaking w t
      → LossDataStep p breaking t u
      → LossDataReach p breaking w u
