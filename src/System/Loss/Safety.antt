-- ===== src/System/Loss/Safety.antt =====
-- What is true of a connection that may be lost at any time.
use bxp_core.Base.{
  ℕ, ◌⊎◌, true, refl, inl, inr, ◌≡◌, ap, ◌∙◌, sym, false, List, [], ◌++◌, append-nil, append_assoc,
  length, take, take-length-append, Result,
}
use bxp_core.Exchange.Script.{replies}
use bxp_core.Protocol.{BxpResponse, Error}
use bxp_core.Session.Serving.{KeepsInbox}
use bxp_core.System.{Parts}
use bxp_core.System.Invariant.{IsGood, IsNew, IsNew-Inv}
use bxp_core.System.Loss.{LossWorld, LossReach}
use bxp_core.System.Loss.Invariant.{AllErr, IsLossSound}
use bxp_core.System.Loss.Steps.{LossReach-IsLossSound}

-- A list that is the front of another is so many of its elements.
front : {A : Type 0} {all : List A} (xs ys : List A) → all ≡ xs ++ ys → xs ≡ take (length xs) all
front xs ys e = sym (take-length-append xs ys) ∙ ap (take (length xs)) (sym e)

module _ (p : Parts) where
  pub record InOrder (t : LossWorld p.q) : Type 0 where
    pub heard : ℕ
    pub answered : ℕ
    pub fails : List (Result Error BxpResponse)
    pub handled : t.handled ≡ take heard t.base.asked
    pub received : t.base.received ≡ replies p.status (take answered t.handled) ++ fails
    pub failed : AllErr fails
    -- Only a loss makes a call fail or ends the loop.
    pub unless_lost : (t.is_lost ≡ true) ⊎ ((t.base.serving ≡ true) × (fails ≡ []))

  pub in_order : (t : LossWorld p.q) → IsLossSound p t → InOrder t
  in_order t (IsLossSound.up_yet up s same) = record {
    heard = length t.handled;
    answered = length s.done;
    fails = [];
    handled = front t.handled s.waiting (
        s.inv.asked
        ∙ sym (append_assoc s.done s.answered s.waiting)
        ∙ ap (λ l. l ++ s.waiting) (sym same));
    received =
        s.inv.received ∙ ap (replies p.status) (front s.done s.answered same) ∙ sym (append-nil _);
    failed = tt;
    unless_lost = inr (s.inv.serving, refl);
  }
  in_order t (IsLossSound.is_down down k) = record {
    heard = length t.handled;
    answered = length k.done;
    fails = k.fails;
    handled = front t.handled k.unheard k.asked;
    received =
        k.received ∙ ap (λ l. replies p.status l ++ k.fails) (front k.done k.unread k.handled);
    failed = k.failed;
    unless_lost = inl down;
  }

  pub first-IsLossSound :
      (w : LossWorld p.q) → IsNew p w.base → w.is_lost ≡ false → w.handled ≡ [] → IsLossSound p w
  first-IsLossSound w new up none =
      IsLossSound.up_yet up
        (record { done = []; answered = []; waiting = []; inv = IsNew-Inv p w.base new }) none

module _ (p : Parts) (good : IsGood p) (keeps : KeepsInbox p.c p.router) where
  -- For a router that answers by its policy and whose handlers never read from the control stream,
  -- on a connection that may be lost at any time, with any part of what was on its way or had not
  -- been read, and whatever the two ends do before and after: in every state that a new connection
  -- reaches, the router was called with the oldest requests of the client, in order, each once,
  -- and the client's calls of `receive_response` have returned the right responses to the oldest of
  -- those, in order, and behind them nothing but errors; and as long as the connection is up, there
  -- are no errors and the serving loop runs.
  pub loss_in_order :
      {w t : LossWorld p.q}
      → IsNew p w.base
      → w.is_lost ≡ false
      → w.handled ≡ []
      → LossReach p w t
      → (m n : ℕ) × (fails : List (Result Error BxpResponse)) × (t.handled ≡ take m t.base.asked)
        × (t.base.received ≡ replies p.status (take n t.handled) ++ fails)
        × AllErr fails
        × ((t.is_lost ≡ true) ⊎ ((t.base.serving ≡ true) × (fails ≡ [])))
  loss_in_order {w} {t} new up none r =
      let h =
        in_order p t (LossReach-IsLossSound p good keeps (first-IsLossSound p w new up none) r) in
      (h.heard, h.answered, h.fails, h.handled, h.received, h.failed, h.unless_lost)
