-- ===== src/System/Loss/Steps.antt =====
-- Each step keeps what holds when the connection may be lost.
use bxp_core.Base.{◌≡◌, refl, ap, ◌∙◌, sym, false, [], ◌∷◌, ◌++◌, append-nil, append_assoc}
use bxp_core.Session.Serving.{KeepsInbox}
use bxp_core.System.{World, Parts, Work}
use bxp_core.System.Invariant.{IsGood, IsSound}
use bxp_core.System.Loss.{LossWorld, LossStep, LossReach, handles}
use bxp_core.System.Loss.Client.{read_late_lem, send_late_lem}
use bxp_core.System.Loss.Invariant.{IsLossSound}
use bxp_core.System.Loss.Server.{lose_lem, serve_late_lem, stop_late_lem}
use bxp_core.System.Oldest.{find-Asked, receive-Asked, find-Answered}
use bxp_core.System.Steps.{
  arrive_up-Inv, arrive_down-Inv, serve-Inv, serve-appends, receive-Inv, send-Inv,
}

module _ (p : Parts) (good : IsGood p) (w : LossWorld p.q) where
  work_lem :
      {t : World p.q} (m : Work p w.base t)
      → w.is_lost ≡ false
      → (s : IsSound p w.base) → w.handled ≡ s.done ++ s.answered
      → IsLossSound p (record w { base = t; handled = w.handled ++ handles m })
  work_lem (Work.arrive_up bs rest e) up s same =
      IsLossSound.up_yet up
        (record {
          done = s.done;
          answered = s.answered;
          waiting = s.waiting;
          inv = arrive_up-Inv p good w.base bs rest e s.inv;
        })
        (append-nil w.handled ∙ same)
  work_lem (Work.arrive_down bs rest e) up s same =
      IsLossSound.up_yet up
        (record {
          done = s.done;
          answered = s.answered;
          waiting = s.waiting;
          inv = arrive_down-Inv p good w.base bs rest e s.inv;
        })
        (append-nil w.handled ∙ same)
  work_lem (Work.serve r body rest run found got) up s same =
      let a = find-Asked p w.base s.waiting s.inv (rw found tt) in
      IsLossSound.up_yet up
        (record {
          done = s.done;
          answered = s.answered ++ (a.oldest ∷ []);
          waiting = a.others;
          inv = serve-Inv p good w.base r s.inv a got;
        })
        (ap (λ l. l ++ (r ∷ [])) same
          ∙ append_assoc s.done s.answered (r ∷ [])
          ∙ ap (λ x. s.done ++ (s.answered ++ (x ∷ [])))
              (sym (serve-appends p good w.base s.inv a got).0))
  work_lem (Work.stop e run found failed) up s same =
      let a = find-Asked p w.base s.waiting s.inv found in
      absurd (cc ((receive-Asked p w.base a).0, failed))
  work_lem (Work.receive found) up s same =
      let a = find-Answered p w.base s.answered s.inv found in
      IsLossSound.up_yet up
        (record {
          done = s.done ++ (a.oldest ∷ []);
          answered = a.others;
          waiting = s.waiting;
          inv = receive-Inv p good w.base s.inv a;
        })
        (append-nil w.handled
          ∙ same
          ∙ ap (λ l. s.done ++ l) a.is_head
          ∙ sym (append_assoc s.done (a.oldest ∷ []) a.others))

  pub step_lem :
      {t : LossWorld p.q}
      → KeepsInbox p.c p.router
      → LossStep p w t
      → IsLossSound p w
      → IsLossSound p t
  step_lem keeps (LossStep.work m up) (IsLossSound.up_yet _ s same) = work_lem m up s same
  step_lem keeps (LossStep.send r up fits) (IsLossSound.up_yet _ s same) =
      IsLossSound.up_yet up
        (record {
          done = s.done;
          answered = s.answered;
          waiting = s.waiting ++ (r ∷ []);
          inv = send-Inv p good w.base r fits s.inv;
        })
        same
  step_lem keeps (LossStep.lose client server gone_up gone_down up e f)
        (IsLossSound.up_yet _ s same) =
      IsLossSound.is_down refl (lose_lem p w client server gone_up gone_down e f s same)
  step_lem keeps (LossStep.serve_late r down run got) (IsLossSound.is_down _ k) =
      IsLossSound.is_down down (serve_late_lem p w r keeps run got k)
  step_lem keeps (LossStep.stop_late e down run failed) (IsLossSound.is_down _ k) =
      IsLossSound.is_down down (stop_late_lem p w k)
  step_lem keeps (LossStep.read_late down) (IsLossSound.is_down _ k) =
      IsLossSound.is_down down (read_late_lem p w k)
  step_lem keeps (LossStep.send_late r down) (IsLossSound.is_down _ k) =
      IsLossSound.is_down down (send_late_lem p w r k)
  step_lem keeps (LossStep.work m up) (IsLossSound.is_down down _) = absurd (cc (up, down))
  step_lem keeps (LossStep.send r up fits) (IsLossSound.is_down down _) = absurd (cc (up, down))
  step_lem keeps (LossStep.lose client server gone_up gone_down up e f)
        (IsLossSound.is_down down _) =
      absurd (cc (up, down))
  step_lem keeps (LossStep.serve_late r down run got) (IsLossSound.up_yet up _ _) =
      absurd (cc (up, down))
  step_lem keeps (LossStep.stop_late e down run failed) (IsLossSound.up_yet up _ _) =
      absurd (cc (up, down))
  step_lem keeps (LossStep.read_late down) (IsLossSound.up_yet up _ _) = absurd (cc (up, down))
  step_lem keeps (LossStep.send_late r down) (IsLossSound.up_yet up _ _) = absurd (cc (up, down))

module _ (p : Parts) (good : IsGood p) (keeps : KeepsInbox p.c p.router) where
  pub LossReach-IsLossSound :
      {w t : LossWorld p.q} → IsLossSound p w → LossReach p w t → IsLossSound p t
  LossReach-IsLossSound k LossReach.start = k
  LossReach-IsLossSound k (LossReach.later {t} r m) =
      step_lem p good t keeps m (LossReach-IsLossSound k r)
