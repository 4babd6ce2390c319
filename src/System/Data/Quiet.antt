-- ===== src/System/Data/Quiet.antt =====
-- The end of a run of the system with its data streams.
use bxp_core.Base.{ℕ, ◌≡◌, refl, ap, List, [], ◌∷◌, length, length-append, arith}
use bxp_core.Exchange.Script.{request_frames, reply_frames, replies}
use bxp_core.Protocol.{BxpRequest}
use bxp_core.System.{Work}
use bxp_core.System.Invariant.{Inv}
use bxp_core.System.Oldest.{find-Asked, find-Answered}
use bxp_core.System.Data.{DataWorld, DataParts, DataWork, DataReach}
use bxp_core.System.Data.Delivery.{all_taken, base-IsSound}
use bxp_core.System.Data.Invariant.{IsDataGood, IsDataNew, IsDataNew-IsDataSound}
use bxp_core.System.Data.Owed.{owed, all_read}
use bxp_core.System.Data.Steps.{DataReach-IsDataSound}
use bxp_core.System.Liveness.{IsBusy, IsQuiet, quiet_done}
use mathlib.Core.List.{Permᴰ}

module _ (p : DataParts) where
  -- A step that does something.
  abbrev pub IsDataBusy : {w t : DataWorld p.parts.q} → DataWork p w t → Type 0
  IsDataBusy (DataWork.control m) = IsBusy p.parts m
  IsDataBusy (DataWork.land xs s ys e) = Unit
  IsDataBusy (DataWork.take s rest e) = Unit

  -- Nothing can be done any more, except that the client sends.
  abbrev pub IsDataQuiet : DataWorld p.parts.q → Type 0
  IsDataQuiet t = (u : DataWorld p.parts.q) (m : DataWork p t u) → ¬ IsDataBusy m

  quiet_flying :
      (t : DataWorld p.parts.q) (ss : List (List ℕ)) → t.flying ≡ ss → IsDataQuiet t → t.flying ≡ []
  quiet_flying t [] e quiet = e
  quiet_flying t (s ∷ ss) e quiet = absurd (quiet _ (DataWork.land [] s ss e) tt)

  quiet_incoming :
      (t : DataWorld p.parts.q) (ss : List (List ℕ))
      → p.parts.spec.incoming t.base.client.quic_conn ≡ ss
      → IsDataQuiet t
      → p.parts.spec.incoming t.base.client.quic_conn ≡ []
  quiet_incoming t [] e quiet = e
  quiet_incoming t (s ∷ ss) e quiet = absurd (quiet _ (DataWork.take s ss e) tt)

  -- When every request was answered, every response received, and every stream read, nothing can
  -- be done any more.
  pub drained-IsDataQuiet :
      (t : DataWorld p.parts.q) {done : List BxpRequest}
      → Inv p.parts t.base done [] []
      → t.flying ≡ []
      → p.parts.spec.incoming t.base.client.quic_conn ≡ []
      → IsDataQuiet t
  unfolding request_frames reply_frames
  drained-IsDataQuiet t inv none_flying none_here u (DataWork.control (Work.arrive_up [] rest e))
        busy =
      busy refl
  drained-IsDataQuiet t inv none_flying none_here u
        (DataWork.control (Work.arrive_up (b ∷ bs) rest e)) busy =
      omega (
        arith,
        ap length e,
        ap length inv.up,
        length-append (p.parts.spec.pending t.base.server.control_recv) t.base.up,
      )
  drained-IsDataQuiet t inv none_flying none_here u (DataWork.control (Work.arrive_down [] rest e))
        busy =
      busy refl
  drained-IsDataQuiet t inv none_flying none_here u
        (DataWork.control (Work.arrive_down (b ∷ bs) rest e)) busy =
      omega (
        arith,
        ap length e,
        ap length inv.down,
        length-append (p.parts.spec.pending t.base.client.control_recv) t.base.down,
      )
  drained-IsDataQuiet t inv none_flying none_here u
        (DataWork.control (Work.serve r body rest run found got)) busy =
      let h = find-Asked p.parts t.base [] inv (rw found tt) in cc (h.is_head)
  drained-IsDataQuiet t inv none_flying none_here u
        (DataWork.control (Work.stop e run found failed)) busy =
      let h = find-Asked p.parts t.base [] inv found in cc (h.is_head)
  drained-IsDataQuiet t inv none_flying none_here u (DataWork.control (Work.receive found)) busy =
      let h = find-Answered p.parts t.base [] inv found in cc (h.is_head)
  drained-IsDataQuiet t inv none_flying none_here u (DataWork.land [] s ys e) busy =
      cc (none_flying, e)
  drained-IsDataQuiet t inv none_flying none_here u (DataWork.land (x ∷ xs) s ys e) busy =
      cc (none_flying, e)
  drained-IsDataQuiet t inv none_flying none_here u (DataWork.take s rest e) busy =
      cc (none_here, e)

module _ (p : DataParts) (good : IsDataGood p) where
  -- For a router that answers and sends data streams by its policies, on a connection that stays
  -- up: no run ends too early. In a state that a new connection reaches and in which no step but a
  -- further request of the client can be taken, the client has received the response to every
  -- request that it has sent, in order, and has read exactly the data streams that are owed for
  -- them, each with its request id and its whole payload.
  pub quiet_delivered :
      {w t : DataWorld p.parts.q}
      → IsDataNew p w
      → DataReach p w t
      → IsDataQuiet p t
      → (t.base.received ≡ replies p.parts.status t.base.asked)
        × (got : List (ℕ × List ℕ)) × (t.taken ≡ all_read got)
        × Permᴰ (owed p.payloads t.base.asked) got
  quiet_delivered {w} {t} new r quiet =
      let h = DataReach-IsDataSound p good (IsDataNew-IsDataSound p w new) r in
      let base : IsQuiet p.parts good.0 t.base = λ u m. quiet _ (DataWork.control m) in
      let s = base-IsSound p h in
      let answered = quiet_done p.parts good.0 t.base s.answered s.waiting s.inv base in
      let (got, read, sorted) =
        all_taken p good t h refl answered (quiet_flying p t t.flying refl quiet)
          (quiet_incoming p t _ refl quiet) in
      (answered, got, read, sorted)
