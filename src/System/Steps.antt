-- ===== src/System/Steps.antt =====
-- Each step of the system keeps the invariant.
use bxp_core.Base.{
  ℕ, ◌≡◌, refl, ap, ap₂, ◌∙◌, sym, List, [], ◌∷◌, ◌++◌, append-nil, append_assoc, ok,
  drop-length-append, length, drop, arith,
}
use bxp_core.Client.Receive.{receive_response_passive}
use bxp_core.Exchange.Append.{
  request_frames-append, reply_frames-append, AllServable-append, replies-append,
}
use bxp_core.Exchange.Request.{request_payload, send_request-frame}
use bxp_core.Exchange.Response.{response_payload}
use bxp_core.Exchange.Script.{request_frames, reply, reply_frames}
use bxp_core.Frame.{frame}
use bxp_core.Protocol.{BxpRequest}
use bxp_core.Server.{receive_request}
use bxp_core.Server.Receive.{receive_request_passive}
use bxp_core.Session.Serving.{IsOpen}
use bxp_core.System.{
  World, Parts, appended, after_serve, IsServable, arrived_up, arrived_down, served, read, sent,
}
use bxp_core.System.Invariant.{Inv, IsGood}
use bxp_core.System.Oldest.{Asked, receive-Asked, Answered, receive-Answered}

-- What a call has appended, if it is known what stands in the stream after it.
pub appended_lem :
    {A : Type 0} (before : List A) {after bs : List A}
    → after ≡ before ++ bs
    → appended before after ≡ bs
appended_lem before {after} {bs} h = ap (drop (length before)) h ∙ drop-length-append before bs

-- An oldest element that moves from one list to the end of another.
pub shift {ℓ} :
    {A : Type ℓ} (xs : List A) (y : A) (ys : List A) → xs ++ (y ∷ ys) ≡ (xs ++ (y ∷ [])) ++ ys
shift xs y ys = sym (append_assoc xs (y ∷ []) ys)

module _ (p : Parts) (good : IsGood p) (w : World p.q) where
  pub arrive_up-Inv :
      {done answered waiting : List BxpRequest} (bs rest : List ℕ)
      → w.up ≡ bs ++ rest
      → Inv p w done answered waiting
      → Inv p (arrived_up p w bs rest) done answered waiting
  arrive_up-Inv bs rest e inv = record {
    asked = inv.asked;
    replied = inv.replied;
    servable = inv.servable;
    up =
        ap (λ x. x ++ rest) (p.network.pending-arrive bs w.server.control_recv)
        ∙ append_assoc (p.spec.pending w.server.control_recv) bs rest
        ∙ ap (λ x. p.spec.pending w.server.control_recv ++ x) (sym e)
        ∙ inv.up;
    down = inv.down;
    received = inv.received;
    ready = inv.ready;
    opened = inv.opened;
    serving = inv.serving;
  }

  pub arrive_down-Inv :
      {done answered waiting : List BxpRequest} (bs rest : List ℕ)
      → w.down ≡ bs ++ rest
      → Inv p w done answered waiting
      → Inv p (arrived_down p w bs rest) done answered waiting
  arrive_down-Inv bs rest e inv = record {
    asked = inv.asked;
    replied = inv.replied;
    servable = inv.servable;
    up = inv.up;
    down =
        ap (λ x. x ++ rest) (p.network.pending-arrive bs w.client.control_recv)
        ∙ append_assoc (p.spec.pending w.client.control_recv) bs rest
        ∙ ap (λ x. p.spec.pending w.client.control_recv ++ x) (sym e)
        ∙ inv.down;
    received = inv.received;
    ready = inv.ready;
    opened = inv.opened;
    serving = inv.serving;
  }

  -- What serving it appends to the stream, and leaves alone.
  pub serve-appends :
      {done answered waiting : List BxpRequest} {r : BxpRequest}
      → Inv p w done answered waiting
      → (h : Asked p w waiting) → (receive_request p.q p.c w.server).0 ≡ ok r
      → let u = after_serve p.q p.c p.router r w in
        (h.oldest ≡ r)
        × (appended (p.spec.written w.server.control_send) (p.spec.written u.control_send)
            ≡ frame (response_payload p.codec (reply p.status h.oldest)))
        × IsOpen p.spec u
        × (p.spec.pending u.control_recv ≡ h.rest)
  serve-appends {r = r} inv h got =
      let (res, left) = receive-Asked p w h in
      let same : h.oldest ≡ r = cc (res, got) in
      let (conn, send) = receive_request_passive p.q p.c w.server in
      let t = (receive_request p.q p.c w.server).1 in
      let (wrote, open_, inbox) = good h.oldest t h.replied (rw send inv.opened) in
      rw (← same) (
        refl,
        appended_lem (p.spec.written w.server.control_send) (
            wrote
            ∙ ap
                (λ x.
                  p.spec.written x ++ frame (response_payload p.codec (reply p.status h.oldest)))
                send),
        open_,
        ap p.spec.pending inbox ∙ left,
      )

  -- The oldest request that waits becomes the newest that is answered.
  pub serve-Inv :
      {done answered waiting : List BxpRequest} (r : BxpRequest)
      → Inv p w done answered waiting
      → (h : Asked p w waiting) → (receive_request p.q p.c w.server).0 ≡ ok r
      → Inv p (served p w r) done (answered ++ (h.oldest ∷ [])) h.others
  unfolding reply_frames
  serve-Inv {done} {answered} {waiting} r inv h got =
      let (same, new, open_, left) = serve-appends inv h got in
      record {
        asked =
            inv.asked
            ∙ ap (λ l. done ++ (answered ++ l)) h.is_head
            ∙ ap (λ l. done ++ l) (shift answered h.oldest h.others);
        replied =
            AllServable-append p.codec p.status answered (h.oldest ∷ []) inv.replied
              (h.sendable, h.replied, tt);
        servable = h.more;
        up = ap (λ x. x ++ w.up) left ∙ h.left;
        down =
            sym (append_assoc {0} (p.spec.pending w.client.control_recv) w.down _)
            ∙ ap₂ ◌++◌ inv.down (
                new ∙ sym (append-nil (frame (response_payload p.codec (reply p.status h.oldest)))))
            ∙ sym (reply_frames-append p.codec p.status answered (h.oldest ∷ []));
        received = inv.received;
        ready = inv.ready;
        opened = open_;
        serving = inv.serving;
      }

  -- The oldest request that is answered becomes the newest that is done.
  pub receive-Inv :
      {done answered waiting : List BxpRequest}
      → Inv p w done answered waiting
      → (h : Answered p w answered) → Inv p (read p w) (done ++ (h.oldest ∷ [])) h.others waiting
  receive-Inv {done} {answered} {waiting} inv h =
      let (res, left) = receive-Answered p w h in
      let (conn, send, endpoint) = receive_response_passive p.q p.c w.client in
      record {
        asked =
            inv.asked
            ∙ ap (λ l. done ++ (l ++ waiting)) h.is_head
            ∙ shift done h.oldest (h.others ++ waiting);
        replied = h.more;
        servable = inv.servable;
        up = inv.up;
        down = ap (λ x. x ++ w.down) left ∙ h.left;
        received =
            ap₂ (λ l x. l ++ (x ∷ [])) inv.received res
            ∙ sym (replies-append p.status done (h.oldest ∷ []));
        ready = rw send inv.ready;
        opened = inv.opened;
        serving = inv.serving;
      }

  -- The client sends one more request.
  pub send-Inv :
      {done answered waiting : List BxpRequest} (r : BxpRequest)
      → IsServable p r
      → Inv p w done answered waiting
      → Inv p (sent p w r) done answered (waiting ++ (r ∷ []))
  unfolding request_frames
  send-Inv {done} {answered} {waiting} r (sendable, replied) inv =
      let (up_, open_) = inv.ready in
      let (res, wrote, up', open', inbox, conn) =
        send_request-frame p.spec p.codec w.client r up_ open_ (omega (arith, sendable.small)) in
      let new = frame (request_payload p.codec r) in
      record {
        asked =
            ap (λ l. l ++ (r ∷ [])) inv.asked
            ∙ append_assoc done (answered ++ waiting) (r ∷ [])
            ∙ ap (λ l. done ++ l) (append_assoc answered waiting (r ∷ []));
        replied = inv.replied;
        servable =
            AllServable-append p.codec p.status waiting (r ∷ []) inv.servable
              (sendable, replied, tt);
        up =
            sym (append_assoc {0} (p.spec.pending w.server.control_recv) w.up _)
            ∙ ap₂ ◌++◌ inv.up
                (appended_lem (p.spec.written w.client.control_send) wrote ∙ sym (append-nil new))
            ∙ sym (request_frames-append p.codec waiting (r ∷ []));
        down = ap (λ x. p.spec.pending x ++ w.down) inbox ∙ inv.down;
        received = inv.received;
        ready = (up', open');
        opened = inv.opened;
        serving = inv.serving;
      }
