-- ===== src/System/Data/Loss/Safety.antt =====
-- What is true of the data streams of a connection that may be lost at any time.
use bxp_core.Base.{ℕ, ◌≡◌, ap, ◌∙◌, false, List, ◌++◌}
use bxp_core.System.Data.{DataParts}
use bxp_core.System.Data.Invariant.{IsDataGood, IsDataNew, IsDataNew-IsDataSound}
use bxp_core.System.Data.Loss.{Breaking, LossDataWorld, LossDataReach}
use bxp_core.System.Data.Loss.Invariant.{oks, oks-all_read, IsLossDataSound, all_sorted}
use bxp_core.System.Data.Loss.Steps.{LossDataReach-IsLossDataSound}
use bxp_core.System.Data.Owed.{owed}
use mathlib.Core.List.{Permᴰ}

module _ (p : DataParts) (breaking : Breaking p.parts.spec) where
  all_owed :
      (t : LossDataWorld p.parts.q)
      → IsLossDataSound p breaking t
      → (missing : List (ℕ × List ℕ)) × Permᴰ
          (owed p.payloads t.data_world.base.asked)
          (oks t.data_world.taken ++ missing)
  all_owed t (IsLossDataSound.up_yet up h) =
      let i = h.inv in
      (
        i.here ++ (i.flown ++ owed p.payloads h.waiting),
        rw (ap oks i.taken ∙ oks-all_read i.got) (all_sorted p breaking t h),
      )
  all_owed t (IsLossDataSound.is_down down k) = (k.here ++ k.missing, rw k.read k.sorted)

module _ (p : DataParts) (good : IsDataGood p) (breaking : Breaking p.parts.spec) where
  -- For a router that answers and sends data streams by its policies, on a connection that may be
  -- lost at any time, with streams that never arrive, and others that had arrived and are gone or
  -- broken off, and whatever the two ends do before and after: in every state that a new connection
  -- reaches, the data streams that the client's readings have returned without an error are, by
  -- request id and payload, a part of what the router's policy owes for the requests that the
  -- client has sent, each of them whole and none more often than it is owed.
  pub taken_owed :
      {w t : LossDataWorld p.parts.q}
      → IsDataNew p w.data_world
      → w.is_lost ≡ false
      → LossDataReach p breaking w t
      → (missing : List (ℕ × List ℕ)) × Permᴰ
          (owed p.payloads t.data_world.base.asked)
          (oks t.data_world.taken ++ missing)
  taken_owed {w} {t} new up r = all_owed p breaking t (
      LossDataReach-IsLossDataSound p good breaking
        (IsLossDataSound.up_yet up (IsDataNew-IsDataSound p w.data_world new)) r)
