-- ===== src/System/Data/Refinement.antt =====
-- The system with its data streams keeps the promise of the service.
use bxp_core.Base.{◌≡◌, refl, sym}
use bxp_core.System.Data.{DataWorld, DataParts, DataReach}
use bxp_core.System.Data.Invariant.{IsDataGood, IsDataNew, IsDataNew-IsDataSound}
use bxp_core.System.Data.Service.{DataService, DataServiceRun, nothing_asked}
use bxp_core.System.Data.Simulation.{DataRefines, simulate}
use mathlib.Core.List.Permᴰ

module _ (p : DataParts) (good : IsDataGood p) where
  record DataReached (t : DataWorld p.parts.q) : Type 0 where
    service : DataService
    run : DataServiceRun p.parts.status p.payloads nothing_asked service
    refines : DataRefines p t service

  new-DataRefines : {w : DataWorld p.parts.q} → IsDataNew p w → DataRefines p w nothing_asked
  unfolding IsDataNew-IsDataSound
  new-DataRefines {w} new = record {
    sound = IsDataNew-IsDataSound p w new;
    same_asked = sym new.base.none_asked;
    same_queue = refl;
    same_log = sym new.base.none_received;
    same_taken = sym new.none_taken;
    rest = Permᴰ.nil;
  }

  reached :
      {w t : DataWorld p.parts.q} → DataRefines p w nothing_asked → DataReach p w t → DataReached t
  reached k DataReach.start = record {
    service = nothing_asked;
    run = DataServiceRun.halt;
    refines = k;
  }
  reached k (DataReach.later r m) =
      let before = reached k r in
      let after = simulate p good before.service m before.refines in
      record { service = after.next; run = after.run before.run; refines = after.refines }

  -- For a router that answers and sends data streams by its policies, on a connection that stays
  -- up, the system with its data streams refines the service of fetches: for every state that a new
  -- connection reaches there is a run of the service, from its start and by the policies of the
  -- router, in which exactly the requests of the client were submitted, in the same order, which
  -- has given exactly the answers that the client's calls of `receive_response` have returned, in
  -- the same order, and which has delivered exactly the data streams that the client's reading has
  -- returned, in the same order.
  pub data_service_refined :
      {w t : DataWorld p.parts.q}
      → IsDataNew p w
      → DataReach p w t
      → (s : DataService) × DataServiceRun p.parts.status p.payloads nothing_asked s
        × (s.asked ≡ t.base.asked)
        × (s.log ≡ t.base.received)
        × (s.taken ≡ t.taken)
  data_service_refined new r =
      let end = reached (new-DataRefines new) r in
      (end.service, end.run, end.refines.same_asked, end.refines.same_log, end.refines.same_taken)
