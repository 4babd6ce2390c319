-- ===== src/Examples/DataLoss.antt =====
-- Examples for the data streams of a connection that is lost.
use bxp_core.Base.{ℕ, ◌≡◌, refl, ap, ◌∙◌, Bool, true, false, ok, [], ◌∷◌, ◌++◌, List}
use bxp_core.Base.Bytes.{to_le_bytes}
use bxp_core.Base.Str.{str_eq}
use bxp_core.Capnp.Plain.{plain}
use bxp_core.Client.Send.{send_request_keeps_conn}
use bxp_core.Examples.{whole}
use bxp_core.Examples.DataPlane.{
  landing, data_parts, data_parts-IsDataGood, idle, idle-IsDataNew, arrived, arrived-Inv, answered,
  answered-DataReach,
}
use bxp_core.Examples.Transfers.{file}
use bxp_core.Exchange.Streams.{tagged}
use bxp_core.Protocol.{action_eq}
use bxp_core.Quic.Memory.{memory, memory-IsQuic, Link, accept_next}
use bxp_core.Session.Transfers.{fetch_file}
use bxp_core.System.Data.{DataWork, DataStep, DataReach, DataWorld, landed, took}
use bxp_core.System.Data.Control.{serve-streams}
use bxp_core.System.Data.FileRouter.{file_payloads}
use bxp_core.System.Data.Loss.{Breaking, Kept, LossDataWorld, LossDataStep, LossDataReach, lost}
use bxp_core.System.Data.Loss.Invariant.{oks}
use bxp_core.System.Data.Loss.Safety.{taken_owed}
use bxp_core.System.Data.Owed.{owed, under}
use bxp_core.System.Oldest.{all_asked, find-Asked, receive-Asked}
use mathlib.Core.List.{Permᴰ}

all_true : List (List ℕ) → List Bool
all_true [] = []
all_true (s ∷ ss) = true ∷ all_true ss

next_intact :
    (c : Link) (b : Bool) (more : List Bool) (ss : List (List ℕ))
    → c.incoming ≡ ss
    → all_true ss ≡ b ∷ more
    → (true ≡ b) × (all_true (memory.accept_uni c).1.incoming ≡ more)
unfolding all_true
next_intact c b more [] f e = absurd (cc e)
next_intact c b more (s ∷ ss) f e =
    let (_, _, _, left) = accept_next c s ss f in
    let same : all_true ss ≡ more = cc e in (cc e, ap all_true left ∙ same)

unfoldable breaking : Breaking memory-IsQuic
unfolding memory-IsQuic all_true
breaking = record {
  intact = λ c. all_true c.incoming;
  accept_uni-intact = λ c r b more e h. next_intact c b more c.incoming refl e;
  drop_recv-intact = λ r c. refl;
  copy_in-broken = λ r e. absurd (cc e);
}

abbrev pub stream : List ℕ
stream = to_le_bytes 55 ++ whole.yields

-- The data stream of the fetch is on its way.
pub stream_out : answered.flying ≡ stream ∷ []
unfolding tagged memory-IsQuic action_eq str_eq
stream_out =
    let inv = arrived-Inv in
    let found = all_asked data_parts.parts arrived.base inv refl in
    let h = find-Asked data_parts.parts arrived.base (fetch_file file 55 ∷ []) inv (rw found tt) in
    let same : h.oldest ≡ fetch_file file 55 = cc (h.is_head) in
    let (got, left) = receive-Asked data_parts.parts arrived.base h in
    let (sent, _) =
      serve-streams data_parts data_parts-IsDataGood arrived inv refl h (got ∙ ap ok same) in
    sent ∙ ap (λ r. tagged (under r.req_id (data_parts.payloads r))) same

abbrev pub here : DataWorld memory
here = landed data_parts answered stream []

pub here_incoming : here.base.client.quic_conn.incoming ≡ stream ∷ []
unfolding landing
here_incoming =
    ap (λ c. c.incoming ++ (stream ∷ []))
      (send_request_keeps_conn memory plain (fetch_file file 55) idle.base.client)

-- The stream has arrived when the connection is lost, and is read behind that.
abbrev cut : LossDataWorld memory
cut =
    lost data_parts (record { data_world = here; is_lost = false }) here.base.client
      here.base.server

abbrev taken : LossDataWorld memory
taken = record cut { data_world = took data_parts cut.data_world }

still_there :
    Kept
      (memory-IsQuic.incoming here.base.client.quic_conn)
      (memory-IsQuic.incoming here.base.client.quic_conn)
      (breaking.intact here.base.client.quic_conn)
unfolding memory-IsQuic breaking all_true
still_there = rw here_incoming (Kept.stays Kept.none)

-- A run of the connection while it is up.
lifted :
    {w t : DataWorld memory}
    → DataReach data_parts w t
    → LossDataReach data_parts breaking
        (record { data_world = w; is_lost = false })
        (record { data_world = t; is_lost = false })
lifted DataReach.start = LossDataReach.start
lifted (DataReach.later {t} r m) =
    LossDataReach.later {t = record { data_world = t; is_lost = false }} (lifted r)
      (LossDataStep.up m refl)

taken-LossDataReach :
    LossDataReach data_parts breaking (record { data_world = idle; is_lost = false }) taken
unfolding memory-IsQuic
taken-LossDataReach =
    LossDataReach.later {t = cut}
      (LossDataReach.later {t = record { data_world = here; is_lost = false }}
        (LossDataReach.later {t = record { data_world = answered; is_lost = false }}
          (lifted answered-DataReach)
          (LossDataStep.up (DataStep.work (DataWork.land [] stream [] stream_out)) refl))
        (LossDataStep.lose here.base.client here.base.server refl still_there))
      (LossDataStep.take_late stream [] refl here_incoming)

taken_owed_example :
    (missing : List (ℕ × List ℕ)) × Permᴰ
      (owed (file_payloads file whole.yields) taken.data_world.base.asked)
      (oks taken.data_world.taken ++ missing)
taken_owed_example =
    taken_owed data_parts data_parts-IsDataGood breaking
      {w = record { data_world = idle; is_lost = false }} {t = taken} idle-IsDataNew refl
      taken-LossDataReach
