-- ===== src/Examples/Loss.antt =====
-- Examples for a connection that is lost.
use bxp_core.Base.{
  ◌≡◌, ◌⊎◌, true, refl, false, [], ◌∷◌, ◌++◌, List, ℕ, take, ap, ◌∙◌, sym, append-nil, Result, err,
  ok,
}
use bxp_core.Base.Str.{codes}
use bxp_core.Capnp.Plain.{plain}
use bxp_core.Examples.{ping}
use bxp_core.Examples.System.{parts, born, born-IsNew, parts-IsGood, ping-IsServable}
use bxp_core.Exchange.Script.{replies}
use bxp_core.Protocol.{BxpResponse, Error}
use bxp_core.Quic.Memory.{memory}
use bxp_core.Server.{receive_request}
use bxp_core.Session.Handlers.{ping_router-KeepsInbox}
use bxp_core.System.{Work, sent, arrived_up, read}
use bxp_core.System.Invariant.{Inv, IsNew-Inv}
use bxp_core.System.Loss.{LossWorld, LossStep, LossReach, lost, served_late}
use bxp_core.System.Loss.Ends.{loss_noticed}
use bxp_core.System.Loss.Invariant.{AllErr}
use bxp_core.System.Loss.Safety.{loss_in_order}
use bxp_core.System.Oldest.{all_asked, find-Asked, receive-Asked}
use bxp_core.System.Steps.{arrive_up-Inv, send-Inv}

abbrev born_up : LossWorld memory
born_up = record { base = born; is_lost = false; handled = [] }

abbrev asking : LossWorld memory
asking = record born_up { base = sent parts born ping }

abbrev arrived : LossWorld memory
arrived = record asking { base = arrived_up parts asking.base asking.base.up [] }

-- The connection is lost before the ping is served.
abbrev cut : LossWorld memory
cut = lost parts arrived arrived.base.client arrived.base.server [] []

abbrev answered : LossWorld memory
answered = served_late parts cut ping

abbrev failed : LossWorld memory
failed = record answered { base = read parts answered.base }

arrived-Inv : Inv parts arrived.base [] [] (ping ∷ [])
arrived-Inv =
    arrive_up-Inv parts parts-IsGood asking.base asking.base.up [] (sym (append-nil asking.base.up))
      (send-Inv parts parts-IsGood born ping ping-IsServable (IsNew-Inv parts born born-IsNew))

ping_read : (receive_request memory plain arrived.base.server).0 ≡ ok ping
ping_read =
    let found = all_asked parts arrived.base arrived-Inv refl in
    let h = find-Asked parts arrived.base (ping ∷ []) arrived-Inv (rw found tt) in
    let same : h.oldest ≡ ping = cc (h.is_head) in
    (receive-Asked parts arrived.base h).0 ∙ ap ok same

failed-LossReach : LossReach parts born_up failed
failed-LossReach =
    LossReach.later {t = answered}
      (LossReach.later {t = cut}
        (LossReach.later {t = arrived}
          (LossReach.later {t = asking}
            (LossReach.later {t = born_up} LossReach.start
              (LossStep.send ping refl ping-IsServable))
            (LossStep.work (Work.arrive_up asking.base.up [] (sym (append-nil asking.base.up)))
              refl))
          (LossStep.lose arrived.base.client arrived.base.server [] [] refl (sym (append-nil _))
            (sym (append-nil _))))
        (LossStep.serve_late ping refl refl ping_read))
      (LossStep.read_late refl)

loss_in_order_example :
    (m n : ℕ) × (fails : List (Result Error BxpResponse)) × (failed.handled
      ≡ take m failed.base.asked)
    × (failed.base.received ≡ replies parts.status (take n failed.handled) ++ fails)
    × AllErr fails
    × ((failed.is_lost ≡ true) ⊎ ((failed.base.serving ≡ true) × (fails ≡ [])))
loss_in_order_example =
    loss_in_order parts parts-IsGood (ping_router-KeepsInbox memory plain (codes "bxp://ping"))
      {w = born_up} {t = failed} born-IsNew refl refl failed-LossReach

loss_noticed_example :
    (u : LossWorld memory) × LossReach parts cut u
    × (u.base.asked ≡ cut.base.asked)
    × (u.base.serving ≡ false)
    × (before : List (Result Error BxpResponse)) × (e : Error) × (u.base.received
        ≡ before ++ (err e ∷ []))
loss_noticed_example =
    loss_noticed parts cut (ping_router-KeepsInbox memory plain (codes "bxp://ping")) refl
