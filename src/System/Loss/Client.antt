-- ===== src/System/Loss/Client.antt =====
-- The client's calls behind the loss of the connection.
use bxp_core.Base.{
  ◌≡◌, refl, ap, ap₂, ◌∙◌, sym, false, ◌⊎◌, inl, inr, List, [], ◌∷◌, ◌++◌, append-nil, append_assoc,
  err, Result,
}
use bxp_core.Client.{ClientConnection, receive_response}
use bxp_core.Client.Send.{send_request_keeps_inbox}
use bxp_core.Client.Receive.{receive_response-Receives}
use bxp_core.Exchange.Append.{replies-append}
use bxp_core.Exchange.Script.{replies}
use bxp_core.Frame.Reading.{truncated, next_unlimited}
use bxp_core.Protocol.{BxpRequest, BxpResponse, Error, quic}
use bxp_core.System.{Parts, read}
use bxp_core.System.Loss.{LossWorld, sent_late}
use bxp_core.System.Loss.Invariant.{AllErr-append, IsFound-cases, Hearing, Reading, Lost}
use bxp_core.System.Oldest.{Answered, find_response, receive-Answered}
use bxp_core.System.Steps.{shift}

module _ (p : Parts) (w : LossWorld p.q) where
  -- The server's side does not depend on the client.
  heard :
      (client : ClientConnection p.q) {received : List (Result Error BxpResponse)}
      {rs : List BxpRequest}
      → (w.base.serving ≡ false) ⊎ Hearing p w rs
      → (w.base.serving ≡ false)
        ⊎ Hearing p (record w { base = record w.base { client = client; received = received } }) rs
  heard client (inl off) = inl off
  heard client (inr h) = inr (record {
    waiting = h.waiting;
    after = h.after;
    is_split = h.is_split;
    servable = h.servable;
    up = h.up;
  })

  -- The client's stream has ended.
  read_nothing :
      next_unlimited (p.spec.pending w.base.client.control_recv) ≡ truncated
      → Lost p w
      → Lost p (record w { base = read p w.base })
  read_nothing short k =
      let (e, failed, left) = rw short at (receive_response-Receives p.spec p.c w.base.client) in
      record {
        unheard = k.unheard;
        asked = k.asked;
        server = heard (receive_response p.q p.c w.base.client).1 k.server;
        done = k.done;
        unread = k.unread;
        handled = k.handled;
        fails = k.fails ++ (err (quic e) ∷ []);
        received =
            ap₂ (λ l x. l ++ (x ∷ [])) k.received failed
            ∙ append_assoc (replies p.status k.done) k.fails (err (quic e) ∷ []);
        failed = AllErr-append k.fails (quic e) k.failed;
        client = inl left;
      }

  read_next :
      (k : Lost p w) (h : Reading p w k.unread)
      → k.fails ≡ []
      → Answered p w.base h.answered
      → Lost p (record w { base = read p w.base })
  read_next k h none a =
      let (res, left) = receive-Answered p w.base a in
      let next : k.unread ≡ a.oldest ∷ (a.others ++ h.after) =
        h.is_split ∙ ap (λ l. l ++ h.after) a.is_head in
      record {
        unheard = k.unheard;
        asked = k.asked;
        server = heard (receive_response p.q p.c w.base.client).1 k.server;
        done = k.done ++ (a.oldest ∷ []);
        unread = a.others ++ h.after;
        handled =
            k.handled ∙ ap (λ l. k.done ++ l) next ∙ shift k.done a.oldest (a.others ++ h.after);
        fails = [];
        received =
            ap₂ (λ l x. l ++ (x ∷ []))
              (k.received
                ∙ ap (λ l. replies p.status k.done ++ l) none
                ∙ append-nil (replies p.status k.done))
              res
            ∙ sym (replies-append p.status k.done (a.oldest ∷ []))
            ∙ sym (append-nil (replies p.status (k.done ++ (a.oldest ∷ []))));
        failed = tt;
        client = inr (
          refl,
          record {
            answered = a.others;
            after = h.after;
            is_split = refl;
            servable = a.more;
            down = ap (λ x. x ++ w.base.down) left ∙ a.left;
          },
        );
      }

  pub read_late_lem : Lost p w → Lost p (record w { base = read p w.base })
  unfolding next_unlimited
  read_late_lem k = elim k.client [
    | inl end ↦ read_nothing (ap next_unlimited end) k
    | inr (none, h) ↦
        elim (IsFound-cases (next_unlimited (p.spec.pending w.base.client.control_recv))) [
          | inl short ↦ read_nothing short k
          | inr found ↦
              read_next k h none (find_response p w.base h.answered h.servable h.down found)
        ]
  ]

  pub send_late_lem : (r : BxpRequest) → Lost p w → Lost p (sent_late p w r)
  send_late_lem r k =
      let inbox = send_request_keeps_inbox p.q p.c r w.base.client in
      record {
        unheard = k.unheard ++ (r ∷ []);
        asked = ap (λ l. l ++ (r ∷ [])) k.asked ∙ append_assoc w.handled k.unheard (r ∷ []);
        server = elim k.server [
          | inl off ↦ inl off
          | inr h ↦ inr (record {
            waiting = h.waiting;
            after = h.after ++ (r ∷ []);
            is_split = ap (λ l. l ++ (r ∷ [])) h.is_split ∙ append_assoc h.waiting h.after (r ∷ []);
            servable = h.servable;
            up = h.up;
          })
        ];
        done = k.done;
        unread = k.unread;
        handled = k.handled;
        fails = k.fails;
        received = k.received;
        failed = k.failed;
        client = elim k.client [
          | inl end ↦ inl (ap p.spec.pending inbox ∙ end)
          | inr (none, h) ↦ inr (
            none,
            record {
              answered = h.answered;
              after = h.after;
              is_split = h.is_split;
              servable = h.servable;
              down = ap (λ x. p.spec.pending x ++ w.base.down) inbox ∙ h.down;
            },
          )
        ];
      }
