-- ===== src/Examples/DataQuiet.antt =====
-- An example for the end of a run of the system with data streams: one fetch of a file, which was
-- answered and whose data stream was read.
use bxp_core.Base.{ℕ, ◌≡◌, refl, ap, ◌∙◌, sym, append-nil, ok, List, [], ◌∷◌, arith}
use bxp_core.Client.Receive.{receive_response_passive}
use bxp_core.Capnp.Plain.{plain}
use bxp_core.Examples.{whole}
use bxp_core.Examples.DataLoss.{stream, stream_out, here, here_incoming}
use bxp_core.Examples.DataPlane.{
  data_parts, data_parts-IsDataGood, idle, idle-IsDataNew, arrived, arrived-Inv, answered,
  answered-DataReach,
}
use bxp_core.Examples.Transfers.{file}
use bxp_core.Exchange.Script.{replies}
use bxp_core.Protocol.{BxpAction}
use bxp_core.Quic.Memory.{memory, memory-IsQuic}
use bxp_core.Session.Route.{route_status}
use bxp_core.Session.Transfers.{fetch_file}
use bxp_core.System.{Work, arrived_down, read}
use bxp_core.System.Data.{DataWorld, DataWork, DataStep, DataReach, moved, took}
use bxp_core.System.Data.Arrivals.{client-Inv}
use bxp_core.System.Data.Control.{nothing_appended}
use bxp_core.System.Data.FileRouter.{file_payloads}
use bxp_core.System.Data.Owed.{owed, all_read}
use bxp_core.System.Data.Quiet.{IsDataQuiet, drained-IsDataQuiet, quiet_delivered}
use bxp_core.System.Data.Take.{take_stream-next}
use bxp_core.System.Drain.{divide}
use bxp_core.System.Invariant.{Inv}
use bxp_core.System.Oldest.{
  all_asked, find-Asked, receive-Asked, all_answered, find-Answered, Answered,
}
use bxp_core.System.Steps.{serve-Inv, arrive_down-Inv, receive-Inv}
use mathlib.Core.List.{Permᴰ}

-- The client has read the stream, then the response arrives, and then the client receives it.
abbrev picked : DataWorld memory
picked = took data_parts here

abbrev heard : DataWorld memory
heard = moved data_parts picked (arrived_down data_parts.parts picked.base picked.base.down [])

abbrev finished : DataWorld memory
finished = moved data_parts heard (read data_parts.parts heard.base)

answered-Inv : Inv data_parts.parts answered.base [] (fetch_file file 55 ∷ []) []
answered-Inv =
    let found = all_asked data_parts.parts arrived.base arrived-Inv refl in
    let h =
      find-Asked data_parts.parts arrived.base (fetch_file file 55 ∷ []) arrived-Inv
        (rw found tt) in
    let same : h.oldest ≡ fetch_file file 55 = cc (h.is_head) in
    let after : h.others ≡ [] = cc (h.is_head) in
    let (got, left) = receive-Asked data_parts.parts arrived.base h in
    divide data_parts.parts data_parts-IsDataGood.0 refl (ap (λ x. x ∷ []) same) after (
      serve-Inv data_parts.parts data_parts-IsDataGood.0 arrived.base (fetch_file file 55)
        arrived-Inv h (got ∙ ap ok same))

picked_lem :
    Inv data_parts.parts picked.base [] (fetch_file file 55 ∷ []) []
    × (picked.base.client.quic_conn.incoming ≡ [])
unfolding memory-IsQuic
picked_lem =
    let (_, none_left, _, inbox, send) =
      take_stream-next memory-IsQuic here.base.client 55 whole.yields [] (omega arith) refl
        here_incoming in
    (
      client-Inv data_parts here _ (client-Inv data_parts answered _ answered-Inv refl refl) inbox
          send,
      none_left,
    )

heard-Inv : Inv data_parts.parts heard.base [] (fetch_file file 55 ∷ []) []
heard-Inv =
    arrive_down-Inv data_parts.parts data_parts-IsDataGood.0 picked.base picked.base.down []
      (sym (append-nil picked.base.down)) picked_lem.0

response : Answered data_parts.parts heard.base (fetch_file file 55 ∷ [])
response =
    find-Answered data_parts.parts heard.base (fetch_file file 55 ∷ []) heard-Inv
      (all_answered data_parts.parts heard.base heard-Inv refl)

finished-IsDataQuiet : IsDataQuiet data_parts finished
unfolding memory-IsQuic
finished-IsDataQuiet =
    let after : response.others ≡ [] = cc (response.is_head) in
    drained-IsDataQuiet data_parts finished
      (divide data_parts.parts data_parts-IsDataGood.0 refl after refl
        (receive-Inv data_parts.parts data_parts-IsDataGood.0 heard.base heard-Inv response))
      (nothing_appended heard.flying heard.base.server.quic_conn.delivered
        ∙ nothing_appended picked.flying picked.base.server.quic_conn.delivered)
      (ap (λ c. c.incoming) (receive_response_passive memory plain heard.base.client).0
        ∙ picked_lem.1)

finished-DataReach : DataReach data_parts idle finished
unfolding memory-IsQuic
finished-DataReach =
    DataReach.later {t = heard}
      (DataReach.later {t = picked}
        (DataReach.later {t = here}
          (DataReach.later {t = answered} answered-DataReach
            (DataStep.work (DataWork.land [] stream [] stream_out)))
          (DataStep.work (DataWork.take stream [] here_incoming)))
        (DataStep.work (
          DataWork.control
            (Work.arrive_down picked.base.down [] (sym (append-nil picked.base.down))))))
      (DataStep.work
        (DataWork.control (Work.receive (all_answered data_parts.parts heard.base heard-Inv refl))))

quiet_delivered_example :
    (finished.base.received ≡ replies (route_status BxpAction.fetch file) finished.base.asked)
    × (got : List (ℕ × List ℕ)) × (finished.taken ≡ all_read got)
    × Permᴰ (owed (file_payloads file whole.yields) finished.base.asked) got
quiet_delivered_example =
    quiet_delivered data_parts data_parts-IsDataGood {w = idle} {t = finished} idle-IsDataNew
      finished-DataReach finished-IsDataQuiet
