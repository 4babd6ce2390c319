-- ===== src/System/Data/Steps.antt =====
-- Each step of the system with its data streams keeps the invariant.
use bxp_core.System.Data.{DataWorld, DataParts, DataWork, DataStep, DataReach}
use bxp_core.System.Data.Invariant.{IsDataSound, IsDataGood}
use bxp_core.System.Data.Control.{Work-IsDataSound, send-IsDataSound}
use bxp_core.System.Data.Arrivals.{land-IsDataSound, take-IsDataSound}

module _ (p : DataParts) (good : IsDataGood p) (w : DataWorld p.parts.q) where
  pub DataWork-IsDataSound :
      {t : DataWorld p.parts.q} → DataWork p w t → IsDataSound p w → IsDataSound p t
  DataWork-IsDataSound (DataWork.control m) h = Work-IsDataSound p good w m h
  DataWork-IsDataSound (DataWork.land xs s ys e) h = land-IsDataSound p w xs s ys e h
  DataWork-IsDataSound (DataWork.take s rest e) h = take-IsDataSound p w s rest e h

module _ (p : DataParts) (good : IsDataGood p) where
  pub DataReach-IsDataSound :
      {w t : DataWorld p.parts.q} → IsDataSound p w → DataReach p w t → IsDataSound p t
  DataReach-IsDataSound h DataReach.start = h
  DataReach-IsDataSound h (DataReach.later {t} r (DataStep.work m)) =
      DataWork-IsDataSound p good t m (DataReach-IsDataSound h r)
  DataReach-IsDataSound h (DataReach.later {t} r (DataStep.send a k)) =
      send-IsDataSound p good t a k (DataReach-IsDataSound h r)
