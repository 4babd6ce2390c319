-- ===== src/System/Loss/Server.antt =====
-- The loss of the connection, and the serving loop behind it.
use bxp_core.Base.{
  ℕ, ◌≡◌, refl, ap, ◌∙◌, sym, true, inl, inr, List, [], ◌∷◌, ◌++◌, append-nil, append_assoc, ok,
}
use bxp_core.Client.{ClientConnection}
use bxp_core.Exchange.Script.{replies}
use bxp_core.Frame.Reading.{next_frame}
use bxp_core.Protocol.{BxpRequest}
use bxp_core.Server.{ServerConnection, max_control_msg, receive_request}
use bxp_core.Server.Receive.{receive_request-Receives}
use bxp_core.Session.Serving.{KeepsInbox}
use bxp_core.System.{Parts, stopped}
use bxp_core.System.Invariant.{IsSound}
use bxp_core.System.Loss.{LossWorld, lost, served_late}
use bxp_core.System.Loss.Invariant.{IsFound-cases, Lost}
use bxp_core.System.Oldest.{find_request, receive-Asked}
use bxp_core.System.Steps.{shift}

module _ (p : Parts) (w : LossWorld p.q) where
  -- What the streams still bring is a part of what they would have brought.
  pub lose_lem :
      (client : ClientConnection p.q) (server : ServerConnection p.q) (gone_up gone_down : List ℕ)
      → p.spec.pending w.base.server.control_recv ≡ p.spec.pending server.control_recv ++ gone_up
      → p.spec.pending w.base.client.control_recv ≡ p.spec.pending client.control_recv ++ gone_down
      → (s : IsSound p w.base) → w.handled ≡ s.done ++ s.answered
      → Lost p (lost p w client server gone_up gone_down)
  lose_lem client server gone_up gone_down e f s same = record {
    unheard = s.waiting;
    asked =
        s.inv.asked
        ∙ sym (append_assoc s.done s.answered s.waiting)
        ∙ ap (λ l. l ++ s.waiting) (sym same);
    server = inr (record {
      waiting = s.waiting;
      after = [];
      is_split = sym (append-nil s.waiting);
      servable = s.inv.servable;
      up =
          sym (append_assoc (p.spec.pending server.control_recv) gone_up w.base.up)
          ∙ ap (λ x. x ++ w.base.up) (sym e)
          ∙ s.inv.up;
    });
    done = s.done;
    unread = s.answered;
    handled = same;
    fails = [];
    received = s.inv.received ∙ sym (append-nil (replies p.status s.done));
    failed = tt;
    client = inr (
      refl,
      record {
        answered = s.answered;
        after = [];
        is_split = sym (append-nil s.answered);
        servable = s.inv.replied;
        down =
            sym (append_assoc (p.spec.pending client.control_recv) gone_down w.base.down)
            ∙ ap (λ x. x ++ w.base.down) (sym f)
            ∙ s.inv.down;
      },
    );
  }

  pub serve_late_lem :
      (r : BxpRequest)
      → KeepsInbox p.c p.router
      → w.base.serving ≡ true
      → (receive_request p.q p.c w.base.server).0 ≡ ok r
      → Lost p w
      → Lost p (served_late p w r)
  serve_late_lem r keeps run got k = elim k.server [
    | inl off ↦ absurd (cc (off, run))
    | inr h ↦
        elim (IsFound-cases
          (next_frame max_control_msg (p.spec.pending w.base.server.control_recv))) [
            | inl short ↦
                let (e, failed, _) =
                  rw short at (receive_request-Receives p.spec p.c w.base.server) in
                absurd (cc (failed, got))
            | inr found ↦
                let a = find_request p w.base h.waiting h.servable h.up found in
                let (res, left) = receive-Asked p w.base a in
                let same : a.oldest ≡ r = cc (res, got) in
                let next : k.unheard ≡ r ∷ (a.others ++ h.after) =
                  h.is_split
                  ∙ ap (λ l. l ++ h.after) a.is_head
                  ∙ ap (λ x. x ∷ (a.others ++ h.after)) same in
                record {
                  unheard = a.others ++ h.after;
                  asked =
                      k.asked
                      ∙ ap (λ l. w.handled ++ l) next
                      ∙ shift w.handled r (a.others ++ h.after);
                  server = inr (record {
                    waiting = a.others;
                    after = h.after;
                    is_split = refl;
                    servable = a.more;
                    up =
                        ap (λ x. x ++ w.base.up)
                          (ap p.spec.pending (keeps r (receive_request p.q p.c w.base.server).1)
                            ∙ left)
                        ∙ a.left;
                  });
                  done = k.done;
                  unread = k.unread ++ (r ∷ []);
                  handled =
                      ap (λ l. l ++ (r ∷ [])) k.handled ∙ append_assoc k.done k.unread (r ∷ []);
                  fails = k.fails;
                  received = k.received;
                  failed = k.failed;
                  client = elim k.client [
                    | inl end ↦ inl end
                    | inr (none, h) ↦ inr (
                      none,
                      record {
                        answered = h.answered;
                        after = h.after ++ (r ∷ []);
                        is_split =
                            ap (λ l. l ++ (r ∷ [])) h.is_split
                            ∙ append_assoc h.answered h.after (r ∷ []);
                        servable = h.servable;
                        down = h.down;
                      },
                    )
                  ];
                }
          ]
  ]

  -- The loop ends.
  pub stop_late_lem : Lost p w → Lost p (record w { base = stopped p w.base })
  stop_late_lem k = record {
    unheard = k.unheard;
    asked = k.asked;
    server = inl refl;
    done = k.done;
    unread = k.unread;
    handled = k.handled;
    fails = k.fails;
    received = k.received;
    failed = k.failed;
    client = elim k.client [
      | inl end ↦ inl end
      | inr (none, h) ↦ inr (
        none,
        record {
          answered = h.answered;
          after = h.after;
          is_split = h.is_split;
          servable = h.servable;
          down = h.down;
        },
      )
    ];
  }
