-- ===== src/Examples/DataPlane.antt =====
-- Examples for the system with data streams: one fetch of a file.
use bxp_core.Base.{ℕ, ◌≤◌, ◌≡◌, refl, true, [], ◌∷◌, ◌++◌, List, sym, append-nil, take, ◌∙◌, ap, ok}
use bxp_core.Base.Str.{str_eq}
use bxp_core.Capnp.Plain.{plain, plain-IsCapnp}
use bxp_core.Examples.{whole}
use bxp_core.Examples.System.{parts, born}
use bxp_core.Examples.Transfers.{file, fetch_file-IsSendable, granted-IsReply}
use bxp_core.Exchange.Script.{replies}
use bxp_core.Protocol.{BxpAction, action_eq}
use bxp_core.Quic.Memory.{memory, memory-IsQuic}
use bxp_core.Session.{file_router}
use bxp_core.Session.Handlers.{file_router-Answers}
use bxp_core.Session.Route.{route_status}
use bxp_core.Session.Transfers.{fetch_file}
use bxp_core.System.{Work, IsServable, sent, arrived_up, served}
use bxp_core.System.Data.{
  Landing, DataWorld, DataParts, DataWork, DataStep, DataWorks, DataReach, moved,
}
use bxp_core.System.Data.Delivery.{streams_in_place, everything_delivered}
use bxp_core.System.Data.FileRouter.{file_payloads, file_router-Streams}
use bxp_core.System.Data.Invariant.{IsDataGood, IsDataNew}
use bxp_core.System.Data.Liveness.{DataRun, data_budget, data_runs_end}
use bxp_core.System.Data.Refinement.{data_service_refined}
use bxp_core.System.Data.Service.{DataService, DataServiceRun, nothing_asked}
use bxp_core.System.Data.Owed.{owed, all_read}
use bxp_core.System.Invariant.{Inv, IsNew-Inv}
use bxp_core.System.Oldest.{all_asked, find-Asked, receive-Asked}
use bxp_core.System.Steps.{arrive_up-Inv, send-Inv}
use mathlib.Core.List.{Permᴰ}

unfoldable pub landing : Landing memory-IsQuic
unfolding memory-IsQuic
landing = record {
  land = λ s c. record c { incoming = c.incoming ++ (s ∷ []) };
  incoming-land = λ s c. refl;
  whole-land = λ s c h. h;
}

abbrev pub data_parts : DataParts
data_parts = record {
  parts = record parts {
    router = file_router memory plain file whole;
    status = route_status BxpAction.fetch file;
  };
  landing = landing;
  payloads = file_payloads file whole.yields;
}

pub data_parts-IsDataGood : IsDataGood data_parts
unfolding memory-IsQuic
data_parts-IsDataGood = (
  file_router-Answers memory-IsQuic plain-IsCapnp file whole,
  file_router-Streams memory-IsQuic plain-IsCapnp file whole refl,
)

abbrev pub idle : DataWorld memory
idle = record { base = born; flying = []; taken = [] }

pub idle-IsDataNew : IsDataNew data_parts idle
unfolding memory-IsQuic
idle-IsDataNew = record {
  base = record {
    none_asked = refl;
    none_received = refl;
    none_up = refl;
    none_down = refl;
    ready = (refl, refl);
    opened = (refl, refl);
    serving = refl;
  };
  none_taken = refl;
  none_here = refl;
  none_flying = refl;
  live = refl;
  whole = refl;
}

fetch-IsServable : IsServable data_parts.parts (fetch_file file 55)
unfolding route_status action_eq str_eq
fetch-IsServable = (fetch_file-IsSendable, granted-IsReply)

abbrev asking : DataWorld memory
asking = record idle { base = sent data_parts.parts born (fetch_file file 55) }

abbrev pub arrived : DataWorld memory
arrived = moved data_parts asking (arrived_up data_parts.parts asking.base asking.base.up [])

abbrev pub answered : DataWorld memory
answered = moved data_parts arrived (served data_parts.parts arrived.base (fetch_file file 55))

pub arrived-Inv : Inv data_parts.parts arrived.base [] [] (fetch_file file 55 ∷ [])
arrived-Inv =
    arrive_up-Inv data_parts.parts data_parts-IsDataGood.0 asking.base asking.base.up []
      (sym (append-nil asking.base.up))
      (send-Inv data_parts.parts data_parts-IsDataGood.0 born (fetch_file file 55) fetch-IsServable
        (IsNew-Inv data_parts.parts born idle-IsDataNew.base))

-- The server reads the request and sends the response and the file.
pub serving :
    Work data_parts.parts arrived.base (served data_parts.parts arrived.base (fetch_file file 55))
serving =
    let found = all_asked data_parts.parts arrived.base arrived-Inv refl in
    let h =
      find-Asked data_parts.parts arrived.base (fetch_file file 55 ∷ []) arrived-Inv
        (rw found tt) in
    let same : h.oldest ≡ fetch_file file 55 = cc (h.is_head) in
    let (got, left) = receive-Asked data_parts.parts arrived.base h in
    Work.serve (fetch_file file 55) _ _ refl found (got ∙ ap ok same)

arrived-DataReach : DataReach data_parts idle arrived
arrived-DataReach =
    DataReach.later {t = asking}
      (DataReach.later {t = idle} DataReach.start
        (DataStep.send (fetch_file file 55) fetch-IsServable))
      (DataStep.work
        (DataWork.control (Work.arrive_up asking.base.up [] (sym (append-nil asking.base.up)))))

pub answered-DataReach : DataReach data_parts idle answered
answered-DataReach =
    DataReach.later {t = arrived} arrived-DataReach (DataStep.work (DataWork.control serving))

streams_in_place_example :
    (answered.base.serving ≡ true)
    × ((n : ℕ) × (answered.base.received
          ≡ replies (route_status BxpAction.fetch file) (take n answered.base.asked)))
    × (got missing : List (ℕ × List ℕ)) × (answered.taken ≡ all_read got)
    × Permᴰ (owed (file_payloads file whole.yields) answered.base.asked) (got ++ missing)
streams_in_place_example =
    streams_in_place data_parts data_parts-IsDataGood idle-IsDataNew answered-DataReach

everything_delivered_example :
    (u : DataWorld memory) × DataWorks data_parts answered u
    × (u.base.asked ≡ answered.base.asked)
    × (u.base.received ≡ replies (route_status BxpAction.fetch file) answered.base.asked)
    × (got : List (ℕ × List ℕ)) × (u.taken ≡ all_read got)
    × Permᴰ (owed (file_payloads file whole.yields) answered.base.asked) got
everything_delivered_example =
    everything_delivered data_parts data_parts-IsDataGood idle-IsDataNew answered-DataReach

data_service_refined_example :
    (s : DataService) × DataServiceRun
      (route_status BxpAction.fetch file)
      (file_payloads file whole.yields)
      nothing_asked
      s
    × (s.asked ≡ answered.base.asked)
    × (s.log ≡ answered.base.received)
    × (s.taken ≡ answered.taken)
data_service_refined_example =
    data_service_refined data_parts data_parts-IsDataGood idle-IsDataNew answered-DataReach

data_runs_end_example : 1 ≤ data_budget data_parts arrived
unfolding serving
data_runs_end_example =
    data_runs_end data_parts data_parts-IsDataGood {t = arrived} {u = answered} idle-IsDataNew
      arrived-DataReach (DataRun.step (DataWork.control serving) tt DataRun.halt)
