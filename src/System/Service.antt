-- ===== src/System/Service.antt =====
-- What the protocol promises to a client, without frames, bytes and streams: requests are queued,
-- and each is answered in its turn. The system is compared with this service.
use bxp_core.Base.{◌≡◌, refl, ap, ap₂, sym, ◌∙◌, List, [], ◌∷◌, ◌++◌, append_assoc, Result, ok}
use bxp_core.Exchange.Script.{reply}
use bxp_core.Protocol.{BxpRequest, BxpResponse, BxpStatus, Error}
use bxp_core.System.{World, Parts, Work, Step, Reach}
use bxp_core.System.Invariant.{Inv, IsGood, IsNew, IsNew-Inv}
use bxp_core.System.Oldest.{find-Asked, receive-Asked, find-Answered, receive-Answered}
use bxp_core.System.Steps.{shift, arrive_up-Inv, arrive_down-Inv, serve-Inv, receive-Inv, send-Inv}

pub record Service : Type 0 where
  -- What was submitted in all, and what of it was not answered yet.
  pub asked : List BxpRequest
  pub queue : List BxpRequest
  -- The answers so far.
  pub log : List (Result Error BxpResponse)

abbrev pub opened : Service
opened = record { asked = []; queue = []; log = [] }

module _ (status : BxpRequest → BxpStatus) where
  pub data ServiceStep (s : Service) : Service → Type 0 where
    submit :
        (r : BxpRequest)
        → ServiceStep s (record s { asked = s.asked ++ (r ∷ []); queue = s.queue ++ (r ∷ []) })
    -- The oldest request of the queue, under its id and with the status of the policy.
    answer :
        (r : BxpRequest) (rest : List BxpRequest)
        → s.queue ≡ r ∷ rest
        → ServiceStep s (record s { queue = rest; log = s.log ++ (ok (reply status r) ∷ []) })

  pub data ServiceRun (s : Service) : Service → Type 0 where
    halt : ServiceRun s s
    later : {t u : Service} → ServiceRun s t → ServiceStep t u → ServiceRun s u

-- The requests that were answered or that wait are the queue.
record Refines (p : Parts) (w : World p.q) (s : Service) : Type 0 where
  done : List BxpRequest
  answered : List BxpRequest
  waiting : List BxpRequest
  inv : Inv p w done answered waiting
  same_asked : s.asked ≡ w.asked
  same_queue : s.queue ≡ answered ++ waiting
  same_log : s.log ≡ w.received

module _ (p : Parts) (good : IsGood p) where
  -- One step of the system is one step of the service, or none.
  record Simulated (s : Service) (t : World p.q) : Type 0 where
    next : Service
    run : {u : Service} → ServiceRun p.status u s → ServiceRun p.status u next
    refines : Refines p t next

  simulate : {w t : World p.q} (s : Service) → Step p w t → Refines p w s → Simulated s t
  simulate {w} s (Step.send r h) k = record {
    next = record s { asked = s.asked ++ (r ∷ []); queue = s.queue ++ (r ∷ []) };
    run = λ before. ServiceRun.later before (ServiceStep.submit r);
    refines = record {
      done = k.done;
      answered = k.answered;
      waiting = k.waiting ++ (r ∷ []);
      inv = send-Inv p good w r h k.inv;
      same_asked = ap (λ l. l ++ (r ∷ [])) k.same_asked;
      same_queue =
          ap (λ l. l ++ (r ∷ [])) k.same_queue ∙ append_assoc k.answered k.waiting (r ∷ []);
      same_log = k.same_log;
    };
  }
  simulate {w} s (Step.work (Work.arrive_up bs rest e)) k = record {
    next = s;
    run = λ before. before;
    refines = record {
      done = k.done;
      answered = k.answered;
      waiting = k.waiting;
      inv = arrive_up-Inv p good w bs rest e k.inv;
      same_asked = k.same_asked;
      same_queue = k.same_queue;
      same_log = k.same_log;
    };
  }
  simulate {w} s (Step.work (Work.arrive_down bs rest e)) k = record {
    next = s;
    run = λ before. before;
    refines = record {
      done = k.done;
      answered = k.answered;
      waiting = k.waiting;
      inv = arrive_down-Inv p good w bs rest e k.inv;
      same_asked = k.same_asked;
      same_queue = k.same_queue;
      same_log = k.same_log;
    };
  }
  simulate {w} s (Step.work (Work.serve r body rest go found got)) k =
      let h = find-Asked p w k.waiting k.inv (rw found tt) in
      record {
        next = s;
        run = λ before. before;
        refines = record {
          done = k.done;
          answered = k.answered ++ (h.oldest ∷ []);
          waiting = h.others;
          inv = serve-Inv p good w r k.inv h got;
          same_asked = k.same_asked;
          same_queue =
              k.same_queue
              ∙ ap (λ l. k.answered ++ l) h.is_head
              ∙ shift k.answered h.oldest h.others;
          same_log = k.same_log;
        };
      }
  simulate {w} s (Step.work (Work.stop e go found failed)) k =
      let h = find-Asked p w k.waiting k.inv found in absurd (cc ((receive-Asked p w h).0, failed))
  simulate {w} s (Step.work (Work.receive found)) k =
      let h = find-Answered p w k.answered k.inv found in
      let head = k.same_queue ∙ ap (λ l. l ++ k.waiting) h.is_head in
      record {
        next = record s {
          queue = h.others ++ k.waiting;
          log = s.log ++ (ok (reply p.status h.oldest) ∷ []);
        };
        run = λ before.
            ServiceRun.later before (ServiceStep.answer h.oldest (h.others ++ k.waiting) head);
        refines = record {
          done = k.done ++ (h.oldest ∷ []);
          answered = h.others;
          waiting = k.waiting;
          inv = receive-Inv p good w k.inv h;
          same_asked = k.same_asked;
          same_queue = refl;
          same_log = ap₂ (λ l x. l ++ (x ∷ [])) k.same_log (sym (receive-Answered p w h).0);
        };
      }

  record Reached (t : World p.q) : Type 0 where
    service : Service
    run : ServiceRun p.status opened service
    refines : Refines p t service

  reached : {w t : World p.q} → Refines p w opened → Reach p w t → Reached t
  reached k Reach.start = record { service = opened; run = ServiceRun.halt; refines = k }
  reached k (Reach.later r m) =
      let before = reached k r in
      let after = simulate before.service m before.refines in
      record { service = after.next; run = after.run before.run; refines = after.refines }

  -- The system refines the service: for every state that a new connection reaches there is a run
  -- of the service, from its start and by the policy of the router, in which exactly the requests
  -- of the client were submitted, in the same order, and which has given exactly the answers that
  -- the client's calls of `receive_response` have returned, in the same order.
  pub service_refined :
      {w t : World p.q}
      → IsNew p w
      → Reach p w t
      → (s : Service) × ServiceRun p.status opened s × (s.asked ≡ t.asked) × (s.log ≡ t.received)
  service_refined {w} new r =
      let end =
        reached
          (record {
            done = [];
            answered = [];
            waiting = [];
            inv = IsNew-Inv p w new;
            same_asked = sym new.none_asked;
            same_queue = refl;
            same_log = sym new.none_received;
          })
          r in
      (end.service, end.run, end.refines.same_asked, end.refines.same_log)
