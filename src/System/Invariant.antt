-- ===== src/System/Invariant.antt =====
-- What holds in every state that the system reaches: the bytes in the streams and on the network
-- are the frames of the requests that were not served yet, and of the responses that were not
-- received yet.
use bxp_core.Base.{◌≡◌, true, List, [], ◌++◌}
use bxp_core.Exchange.Script.{request_frames, reply_frames, AllServable, IsReady, replies}
use bxp_core.Protocol.{BxpRequest}
use bxp_core.Session.Serving.{IsOpen, Answers}
use bxp_core.System.{World, Parts}

-- The router answers by the policy.
abbrev pub IsGood : Parts → Type 0
IsGood p = Answers p.spec p.codec p.router p.status

-- `done` was sent, served and received, `answered` was sent and served, `waiting` was sent.
pub record Inv (p : Parts) (w : World p.q) (done answered waiting : List BxpRequest) : Type 0 where
  pub asked : w.asked ≡ done ++ (answered ++ waiting)
  pub replied : AllServable p.codec p.status answered
  pub servable : AllServable p.codec p.status waiting
  pub up : p.spec.pending w.server.control_recv ++ w.up ≡ request_frames p.codec waiting
  pub down : p.spec.pending w.client.control_recv ++ w.down ≡ reply_frames p.codec p.status answered
  pub received : w.received ≡ replies p.status done
  pub ready : IsReady p.spec p.codec w.client
  pub opened : IsOpen p.spec w.server
  pub serving : w.serving ≡ true

-- The same for some such division of the requests.
pub record IsSound (p : Parts) (w : World p.q) : Type 0 where
  pub done : List BxpRequest
  pub answered : List BxpRequest
  pub waiting : List BxpRequest
  pub inv : Inv p w done answered waiting

-- A new connection: nothing was sent, nothing is on its way, and both sides are open.
pub record IsNew (p : Parts) (w : World p.q) : Type 0 where
  pub none_asked : w.asked ≡ []
  pub none_received : w.received ≡ []
  pub none_up : p.spec.pending w.server.control_recv ++ w.up ≡ []
  pub none_down : p.spec.pending w.client.control_recv ++ w.down ≡ []
  pub ready : IsReady p.spec p.codec w.client
  pub opened : IsOpen p.spec w.server
  pub serving : w.serving ≡ true

pub IsNew-Inv : (p : Parts) (w : World p.q) → IsNew p w → Inv p w [] [] []
unfolding request_frames reply_frames
IsNew-Inv p w h = record {
  asked = h.none_asked;
  replied = tt;
  servable = tt;
  up = h.none_up;
  down = h.none_down;
  received = h.none_received;
  ready = h.ready;
  opened = h.opened;
  serving = h.serving;
}

pub IsNew-IsSound : (p : Parts) (w : World p.q) → IsNew p w → IsSound p w
IsNew-IsSound p w h = record { done = []; answered = []; waiting = []; inv = IsNew-Inv p w h }
