-- ===== src/System/Data/Service.antt =====
-- What the protocol promises to a client that fetches: requests are answered in their turn, and the
-- data streams that are owed for them are delivered in any order. The system with its data streams
-- is compared with this service.
use bxp_core.Base.{ℕ, ◌≡◌, List, [], ◌∷◌, ◌++◌, Result, ok}
use bxp_core.Exchange.Script.{reply}
use bxp_core.Protocol.{BxpRequest, BxpResponse, BxpStatus, Error}
use bxp_core.System.Data.Owed.{under}
use mathlib.Core.List.{Permᴰ}

pub record DataService : Type 0 where
  -- What was submitted in all, and what of it was not answered yet.
  pub asked : List BxpRequest
  pub queue : List BxpRequest
  -- The streams that are owed and were not delivered yet, by request id and payload.
  pub pending : List (ℕ × List ℕ)
  -- The answers so far, and the streams.
  pub log : List (Result Error BxpResponse)
  pub taken : List (Result Error (ℕ × List ℕ))

abbrev pub nothing_asked : DataService
nothing_asked = record { asked = []; queue = []; pending = []; log = []; taken = [] }

module _ (status : BxpRequest → BxpStatus) (payloads : BxpRequest → List (List ℕ)) where
  pub data DataServiceStep (s : DataService) : DataService → Type 0 where
    submit :
        (r : BxpRequest)
        → DataServiceStep s (record s {
          asked = s.asked ++ (r ∷ []);
          queue = s.queue ++ (r ∷ []);
          pending = s.pending ++ under r.req_id (payloads r);
        })
    -- The oldest request of the queue, under its id and with the status of the policy.
    answer :
        (r : BxpRequest) (rest : List BxpRequest)
        → s.queue ≡ r ∷ rest
        → DataServiceStep s (record s { queue = rest; log = s.log ++ (ok (reply status r) ∷ []) })
    -- Any stream that is owed, whole and under its id.
    deliver :
        (t : ℕ × List ℕ) (rest : List (ℕ × List ℕ))
        → Permᴰ s.pending (t ∷ rest)
        → DataServiceStep s (record s { pending = rest; taken = s.taken ++ (ok t ∷ []) })

  pub data DataServiceRun (s : DataService) : DataService → Type 0 where
    halt : DataServiceRun s s
    later : {t u : DataService} → DataServiceRun s t → DataServiceStep t u → DataServiceRun s u
