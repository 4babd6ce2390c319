-- ===== src/System/Loss/Invariant.antt =====
-- What holds in every state that the system reaches when its connection may be lost.
use bxp_core.Base.{◌≡◌, refl, true, false, ◌⊎◌, inl, inr, List, [], ◌∷◌, ◌++◌, Result, ok, err}
use bxp_core.Exchange.Script.{request_frames, reply_frames, AllServable, replies}
use bxp_core.Frame.Prefix.{IsFound}
use bxp_core.Frame.Reading.{Next, message, oversized, truncated}
use bxp_core.Protocol.{BxpRequest, BxpResponse, Error}
use bxp_core.System.{Parts}
use bxp_core.System.Invariant.{IsSound}
use bxp_core.System.Loss.{LossWorld}

abbrev pub AllErr : List (Result Error BxpResponse) → Type 0
AllErr [] = Unit
AllErr (ok x ∷ xs) = ⊥
AllErr (err e ∷ xs) = AllErr xs

pub AllErr-append :
    (xs : List (Result Error BxpResponse)) (e : Error) → AllErr xs → AllErr (xs ++ (err e ∷ []))
AllErr-append [] e h = tt
AllErr-append (ok x ∷ xs) e h = h
AllErr-append (err f ∷ xs) e h = AllErr-append xs e h

pub IsFound-cases : (n : Next) → (n ≡ truncated) ⊎ IsFound n
IsFound-cases (message body rest) = inr tt
IsFound-cases (oversized len rest) = inr tt
IsFound-cases truncated = inl refl

module _ (p : Parts) (w : LossWorld p.q) where
  -- The server still reads requests that the client has sent, and that come next.
  pub record Hearing (later : List BxpRequest) : Type 0 where
    pub waiting : List BxpRequest
    pub after : List BxpRequest
    pub is_split : later ≡ waiting ++ after
    pub servable : AllServable p.codec p.status waiting
    pub up : p.spec.pending w.base.server.control_recv ++ w.base.up ≡ request_frames p.codec waiting

  -- The client still reads responses to requests that were handled, and that come next.
  pub record Reading (later : List BxpRequest) : Type 0 where
    pub answered : List BxpRequest
    pub after : List BxpRequest
    pub is_split : later ≡ answered ++ after
    pub servable : AllServable p.codec p.status answered
    pub down :
        p.spec.pending w.base.client.control_recv ++ w.base.down
        ≡ reply_frames p.codec p.status answered

  -- After the loss: the requests that were handled are the first that were sent, and the responses
  -- that were received are those to the first that were handled, with errors behind them.
  pub record Lost : Type 0 where
    pub unheard : List BxpRequest
    pub asked : w.base.asked ≡ w.handled ++ unheard
    pub server : (w.base.serving ≡ false) ⊎ Hearing unheard
    pub done : List BxpRequest
    pub unread : List BxpRequest
    pub handled : w.handled ≡ done ++ unread
    pub fails : List (Result Error BxpResponse)
    pub received : w.base.received ≡ replies p.status done ++ fails
    pub failed : AllErr fails
    pub client : (p.spec.pending w.base.client.control_recv ≡ []) ⊎ ((fails ≡ []) × Reading unread)

  pub data IsLossSound : Type 0 where
    up_yet :
        w.is_lost ≡ false → (s : IsSound p w.base) → w.handled ≡ s.done ++ s.answered → IsLossSound
    is_down : w.is_lost ≡ true → Lost → IsLossSound
