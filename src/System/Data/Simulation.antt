-- ===== src/System/Data/Simulation.antt =====
-- Each step of the system with its data streams is one step of the service, or none.
use bxp_core.Base.{◌≡◌, refl, ap, ap₂, sym, ◌∙◌, [], ◌∷◌, ◌++◌, append-nil, append_assoc, ok}
use bxp_core.Client.Receive.{receive_response_passive}
use bxp_core.Exchange.Script.{reply}
use bxp_core.System.{World, Work}
use bxp_core.System.Data.{DataWorld, DataParts, DataWork, DataStep, moved}
use bxp_core.System.Data.Arrivals.{land-IsDataSound, take-IsDataSound, take_lem}
use bxp_core.System.Data.Control.{keeps, serve-IsDataSound, send-IsDataSound}
use bxp_core.System.Data.Invariant.{IsDataGood, IsDataSound}
use bxp_core.System.Data.Owed.{under, owed, owed-append, pick, arrives}
use bxp_core.System.Invariant.{Inv}
use bxp_core.System.Oldest.{find-Asked, receive-Asked, find-Answered, receive-Answered}
use bxp_core.System.Steps.{shift, arrive_up-Inv, arrive_down-Inv, receive-Inv}
use bxp_core.System.Data.Service.{DataService, DataServiceStep, DataServiceRun}
use mathlib.Core.List.Permᴰ
use mathlib.Core.List.{Permᴰ}

pub record DataRefines (p : DataParts) (w : DataWorld p.parts.q) (s : DataService) : Type 0 where
  pub sound : IsDataSound p w
  pub same_asked : s.asked ≡ w.base.asked
  pub same_queue : s.queue ≡ sound.answered ++ sound.waiting
  pub same_log : s.log ≡ w.base.received
  pub same_taken : s.taken ≡ w.taken
  pub rest : Permᴰ s.pending ((sound.inv.here ++ sound.inv.flown) ++ owed p.payloads sound.waiting)

module _ (p : DataParts) (good : IsDataGood p) where
  pub record DataSimulated (s : DataService) (t : DataWorld p.parts.q) : Type 0 where
    pub next : DataService
    pub run :
        {u : DataService}
        → DataServiceRun p.parts.status p.payloads u s
        → DataServiceRun p.parts.status p.payloads u next
    pub refines : DataRefines p t next

  -- Bytes that arrive are no step of the service.
  simulate_arrival :
      {w : DataWorld p.parts.q} {t : World p.parts.q} (s : DataService) (k : DataRefines p w s)
      → Inv p.parts t k.sound.done k.sound.answered k.sound.waiting
      → t.asked ≡ w.base.asked
      → t.received ≡ w.base.received
      → t.server.quic_conn ≡ w.base.server.quic_conn
      → t.client.quic_conn ≡ w.base.client.quic_conn
      → DataSimulated s (moved p w t)
  unfolding keeps
  simulate_arrival {w} s k inv asked received server client = record {
    next = s;
    run = λ before. before;
    refines = record {
      sound = keeps p good w k.sound inv refl server client;
      same_asked = k.same_asked ∙ sym asked;
      same_queue = k.same_queue;
      same_log = k.same_log ∙ sym received;
      same_taken = k.same_taken;
      rest = k.rest;
    };
  }

  simulate_control :
      {w : DataWorld p.parts.q} {t : World p.parts.q} (s : DataService)
      → Work p.parts w.base t
      → DataRefines p w s
      → DataSimulated s (moved p w t)
  unfolding keeps serve-IsDataSound
  simulate_control {w} s (Work.arrive_up bs rest e) k =
      simulate_arrival s k (arrive_up-Inv p.parts good.0 w.base bs rest e k.sound.inv.base) refl
        refl refl refl
  simulate_control {w} s (Work.arrive_down bs rest e) k =
      simulate_arrival s k (arrive_down-Inv p.parts good.0 w.base bs rest e k.sound.inv.base) refl
        refl refl refl
  simulate_control {w} s (Work.serve r body rest run found got) k =
      let h = k.sound in
      let i = h.inv in
      let a = find-Asked p.parts w.base h.waiting i.base (rw found tt) in
      let new = under a.oldest.req_id (p.payloads a.oldest) in
      let others = owed p.payloads a.others in
      let same : (i.here ++ i.flown) ++ owed p.payloads h.waiting
          ≡ (i.here ++ (i.flown ++ new)) ++ others =
        ap (λ l. (i.here ++ i.flown) ++ owed p.payloads l) a.is_head
        ∙ sym (append_assoc (i.here ++ i.flown) new others)
        ∙ ap (λ l. l ++ others) (append_assoc i.here i.flown new) in
      record {
        next = s;
        run = λ before. before;
        refines = record {
          sound = serve-IsDataSound p good w r h a got;
          same_asked = k.same_asked;
          same_queue =
              k.same_queue
              ∙ ap (λ l. h.answered ++ l) a.is_head
              ∙ shift h.answered a.oldest a.others;
          same_log = k.same_log;
          same_taken = k.same_taken;
          rest = rw same at k.rest;
        };
      }
  simulate_control {w} s (Work.stop e run found failed) k =
      let a = find-Asked p.parts w.base k.sound.waiting k.sound.inv.base found in
      absurd (cc ((receive-Asked p.parts w.base a).0, failed))
  simulate_control {w} s (Work.receive found) k =
      let h = k.sound in
      let a = find-Answered p.parts w.base h.answered h.inv.base found in
      let head = k.same_queue ∙ ap (λ l. l ++ h.waiting) a.is_head in
      record {
        next = record s {
          queue = a.others ++ h.waiting;
          log = s.log ++ (ok (reply p.parts.status a.oldest) ∷ []);
        };
        run = λ before.
            DataServiceRun.later before
              (DataServiceStep.answer a.oldest (a.others ++ h.waiting) head);
        refines = record {
          sound =
              keeps p good w h (receive-Inv p.parts good.0 w.base h.inv.base a)
                (append_assoc h.done (a.oldest ∷ []) a.others
                  ∙ ap (λ l. h.done ++ l) (sym a.is_head))
                refl (receive_response_passive p.parts.q p.parts.c w.base.client).0;
          same_asked = k.same_asked;
          same_queue = refl;
          same_log =
              ap₂ (λ l x. l ++ (x ∷ [])) k.same_log (sym (receive-Answered p.parts w.base a).0);
          same_taken = k.same_taken;
          rest = k.rest;
        };
      }

  simulate_data :
      {w t : DataWorld p.parts.q} (s : DataService)
      → DataWork p w t
      → DataRefines p w s
      → DataSimulated s t
  unfolding land-IsDataSound take-IsDataSound
  simulate_data s (DataWork.control m) k = simulate_control s m k
  simulate_data {w} s (DataWork.land xs x ys e) k =
      let i = k.sound.inv in
      let c = pick i.flown xs x ys i.flown_ids (sym i.flying ∙ e) in
      record {
        next = s;
        run = λ before. before;
        refines = record {
          sound = land-IsDataSound p w xs x ys e k.sound;
          same_asked = k.same_asked;
          same_queue = k.same_queue;
          same_log = k.same_log;
          same_taken = k.same_taken;
          rest = Permᴰ.trans k.rest (
              Permᴰ.append_right (owed p.payloads k.sound.waiting)
                (arrives [] i.here i.flown c.before _ c.after c.is_split (Permᴰ.refl _)));
        };
      }
  simulate_data {w} s (DataWork.take x xs e) k =
      let i = k.sound.inv in
      let c = take_lem p w x xs k.sound e in
      let left = (c.others ++ i.flown) ++ owed p.payloads k.sound.waiting in
      record {
        next = record s { pending = left; taken = s.taken ++ (ok c.t ∷ []) };
        run = λ before.
            DataServiceRun.later before (DataServiceStep.deliver c.t left (rw (c.first) at k.rest));
        refines = record {
          sound = take-IsDataSound p w x xs e k.sound;
          same_asked = k.same_asked;
          same_queue = k.same_queue;
          same_log = k.same_log;
          same_taken = ap₂ (λ l y. l ++ (y ∷ [])) k.same_taken (sym c.read);
          rest = Permᴰ.refl _;
        };
      }

  pub simulate :
      {w t : DataWorld p.parts.q} (s : DataService)
      → DataStep p w t
      → DataRefines p w s
      → DataSimulated s t
  unfolding send-IsDataSound
  simulate s (DataStep.work m) k = simulate_data s m k
  simulate {w} s (DataStep.send r fits) k =
      let h = k.sound in
      let i = h.inv in
      let new = under r.req_id (p.payloads r) in
      let same : ((i.here ++ i.flown) ++ owed p.payloads h.waiting) ++ new
          ≡ (i.here ++ i.flown) ++ owed p.payloads (h.waiting ++ (r ∷ [])) =
        append_assoc (i.here ++ i.flown) (owed p.payloads h.waiting) new
        ∙ ap (λ l. (i.here ++ i.flown) ++ l)
            (ap (λ l. owed p.payloads h.waiting ++ l) (sym (append-nil new))
              ∙ sym (owed-append p.payloads h.waiting (r ∷ []))) in
      record {
        next = record s {
          asked = s.asked ++ (r ∷ []);
          queue = s.queue ++ (r ∷ []);
          pending = s.pending ++ new;
        };
        run = λ before. DataServiceRun.later before (DataServiceStep.submit r);
        refines = record {
          sound = send-IsDataSound p good w r fits h;
          same_asked = ap (λ l. l ++ (r ∷ [])) k.same_asked;
          same_queue =
              ap (λ l. l ++ (r ∷ [])) k.same_queue ∙ append_assoc h.answered h.waiting (r ∷ []);
          same_log = k.same_log;
          same_taken = k.same_taken;
          rest = rw same at (Permᴰ.append_right new k.rest);
        };
      }
