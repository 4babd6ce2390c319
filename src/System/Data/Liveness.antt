-- ===== src/System/Data/Liveness.antt =====
-- How many steps the system with its data streams can take without a further request.
use bxp_core.Base.{
  ℕ, zero, suc, ◌+◌, ◌*◌, ◌≤◌, ◌<◌, ◌≡◌, refl, ap, ◌∙◌, sym, List, [], ◌∷◌, ◌++◌, append_assoc,
  length, length-append, arith,
}
use bxp_core.Client.Receive.{receive_response_passive}
use bxp_core.Exchange.Streams.{tagged}
use bxp_core.Protocol.{BxpRequest}
use bxp_core.System.{World, Work, appended, after_serve}
use bxp_core.System.Data.{DataWorld, DataParts, DataWork, DataReach, moved}
use bxp_core.System.Data.Arrivals.{land-IsDataSound, take-IsDataSound, take_lem}
use bxp_core.System.Data.Control.{keeps, nothing_appended, serve-streams, serve-IsDataSound}
use bxp_core.System.Data.Invariant.{IsDataGood, IsDataNew, IsDataSound, IsDataNew-IsDataSound}
use bxp_core.System.Data.Owed.{under, owed, owed-append}
use bxp_core.System.Data.Quiet.{IsDataBusy}
use bxp_core.System.Data.Steps.{DataReach-IsDataSound}
use bxp_core.System.Invariant.{Inv}
use bxp_core.System.Liveness.{cost, left, budget, left-budget}
use bxp_core.System.Oldest.{find-Asked, receive-Asked, find-Answered}
use bxp_core.System.Steps.{arrive_up-Inv, arrive_down-Inv, serve-appends, receive-Inv}

length-tagged : (ts : List (ℕ × List ℕ)) → length (tagged ts) ≡ length ts
unfolding tagged
length-tagged [] = refl
length-tagged (t ∷ ts) = ap suc (length-tagged ts)

module _ (p : DataParts) where
  -- A run of `n` steps that do something.
  pub data DataRun : ℕ → DataWorld p.parts.q → DataWorld p.parts.q → Type 0 where
    halt : {w : DataWorld p.parts.q} → DataRun zero w w
    step :
        {n : ℕ} {w t u : DataWorld p.parts.q} (m : DataWork p w t)
        → IsDataBusy p m
        → DataRun n t u
        → DataRun (suc n) w u

  -- A stream on its way has two steps left, its arrival and its reading.
  abbrev pub streams_left : DataWorld p.parts.q → List BxpRequest → ℕ
  streams_left w rs =
      2 * length w.flying
      + length (p.parts.spec.incoming w.base.client.quic_conn)
      + 2 * length (owed p.payloads rs)

  abbrev data_left : (w : DataWorld p.parts.q) → IsDataSound p w → ℕ
  data_left w h = left p.parts w.base h.answered h.waiting + streams_left w h.waiting

  -- A bound on the steps that are left, by what can be seen of a state.
  abbrev pub data_budget : DataWorld p.parts.q → ℕ
  data_budget w = budget p.parts w.base + streams_left w w.base.asked

  record DataCloser (t : DataWorld p.parts.q) (n : ℕ) : Type 0 where
    sound : IsDataSound p t
    less : data_left t sound < n

module _ (p : DataParts) (good : IsDataGood p) where
  -- A step that opens no data stream, and after which the same requests wait.
  closer_keeps :
      {w : DataWorld p.parts.q} {t : World p.parts.q} {done answered : List BxpRequest}
      (h : IsDataSound p w)
      → Inv p.parts t done answered h.waiting
      → done ++ answered ≡ h.done ++ h.answered
      → t.server.quic_conn ≡ w.base.server.quic_conn
      → t.client.quic_conn ≡ w.base.client.quic_conn
      → left p.parts t answered h.waiting < left p.parts w.base h.answered h.waiting
      → DataCloser p (moved p w t) (data_left p w h)
  unfolding keeps
  closer_keeps {w} {t} h inv same server client less = record {
    sound = keeps p good w h inv same server client;
    less = omega (
      arith,
      less,
      ap (λ c. length (p.parts.spec.incoming c)) client,
      ap
          (λ c. length (
            w.flying
            ++ appended (p.parts.spec.delivered w.base.server.quic_conn)
                (p.parts.spec.delivered c)))
          server,
      ap length (nothing_appended w.flying (p.parts.spec.delivered w.base.server.quic_conn)),
    );
  }

  closer_control :
      {w : DataWorld p.parts.q} {t : World p.parts.q} (m : Work p.parts w.base t)
      (h : IsDataSound p w)
      → IsDataBusy p {w = w} (DataWork.control m)
      → DataCloser p (moved p w t) (data_left p w h)
  unfolding serve-IsDataSound
  closer_control {w} (Work.arrive_up [] rest e) h busy = absurd (busy refl)
  closer_control {w} (Work.arrive_up (b ∷ bs) rest e) h busy =
      closer_keeps h (arrive_up-Inv p.parts good.0 w.base (b ∷ bs) rest e h.inv.base) refl refl refl
        (omega (arith, ap length e, length-append {0} bs rest))
  closer_control {w} (Work.arrive_down [] rest e) h busy = absurd (busy refl)
  closer_control {w} (Work.arrive_down (b ∷ bs) rest e) h busy =
      closer_keeps h (arrive_down-Inv p.parts good.0 w.base (b ∷ bs) rest e h.inv.base) refl refl
        refl (omega (arith, ap length e, length-append {0} bs rest))
  closer_control {w} {t} (Work.serve r body rest run found got) h busy =
      let a = find-Asked p.parts w.base h.waiting h.inv.base (rw found tt) in
      let (same, new, _, _) = serve-appends p.parts good.0 w.base h.inv.base a got in
      let (sent, _) = serve-streams p good w h.inv.base h.inv.live a got in
      let owed_now = under a.oldest.req_id (p.payloads a.oldest) in
      record {
        sound = serve-IsDataSound p good w r h a got;
        less = omega (
          arith,
          ap length new,
          ap (cost p.parts) a.is_head,
          length-append {0} w.base.down (
              appended (p.parts.spec.written w.base.server.control_send) (
                p.parts.spec.written
                  (after_serve p.parts.q p.parts.c p.parts.router r w.base).control_send)),
          length-append {0} h.answered (a.oldest ∷ []),
          ap length sent,
          length-tagged owed_now,
          ap (λ l. length (owed p.payloads l)) a.is_head,
          length-append owed_now (owed p.payloads a.others),
          length-append w.flying (
              appended (p.parts.spec.delivered w.base.server.quic_conn) (
                p.parts.spec.delivered
                  (after_serve p.parts.q p.parts.c p.parts.router r w.base).quic_conn)),
        );
      }
  closer_control {w} (Work.stop e run found failed) h busy =
      let a = find-Asked p.parts w.base h.waiting h.inv.base found in
      absurd (cc ((receive-Asked p.parts w.base a).0, failed))
  closer_control {w} (Work.receive found) h busy =
      let a = find-Answered p.parts w.base h.answered h.inv.base found in
      closer_keeps h (receive-Inv p.parts good.0 w.base h.inv.base a)
        (append_assoc h.done (a.oldest ∷ []) a.others ∙ ap (λ l. h.done ++ l) (sym a.is_head)) refl
        (receive_response_passive p.parts.q p.parts.c w.base.client).0
        (omega (arith, ap length a.is_head))

  data_closer :
      {w t : DataWorld p.parts.q} (m : DataWork p w t) (h : IsDataSound p w)
      → IsDataBusy p m
      → DataCloser p t (data_left p w h)
  unfolding land-IsDataSound take-IsDataSound
  data_closer (DataWork.control m) h busy = closer_control m h busy
  data_closer {w} (DataWork.land xs s ys e) h busy = record {
    sound = land-IsDataSound p w xs s ys e h;
    less = omega (
      arith,
      ap length e,
      length-append xs (s ∷ ys),
      length-append xs ys,
      ap length (p.landing.incoming-land s w.base.client.quic_conn),
      length-append (p.parts.spec.incoming w.base.client.quic_conn) (s ∷ []),
    );
  }
  data_closer {w} (DataWork.take s rest e) h busy = record {
    sound = take-IsDataSound p w s rest e h;
    less = omega (arith, ap length e, ap length (take_lem p w s rest h e).left);
  }

  DataRun-bounded :
      {n : ℕ} {w u : DataWorld p.parts.q}
      → DataRun p n w u
      → (h : IsDataSound p w) → n ≤ data_left p w h
  DataRun-bounded DataRun.halt h = omega arith
  DataRun-bounded (DataRun.step m busy r) h =
      let c = data_closer m h busy in omega (arith, DataRun-bounded r c.sound, c.less)

  data_left-budget :
      {w : DataWorld p.parts.q} (h : IsDataSound p w) → data_left p w h ≤ data_budget p w
  data_left-budget {w} h =
      let earlier = owed p.payloads (h.done ++ h.answered) in
      omega (
        arith,
        left-budget p.parts h.inv.base,
        ap (λ l. length (owed p.payloads l))
            (h.inv.base.asked ∙ sym (append_assoc h.done h.answered h.waiting)),
        ap length (owed-append p.payloads (h.done ++ h.answered) h.waiting),
        length-append earlier (owed p.payloads h.waiting),
      )

  -- For a router that answers and sends data streams by its policies, on a connection that stays
  -- up: once the client sends nothing more, every run ends, however the network, the serving loop
  -- and the client take turns. From a state that a new connection reaches, no run in which each
  -- arrival on the control stream brings at least one byte has more steps than the bytes on their
  -- way there, the bytes of the responses to all requests and two for each request, one for each
  -- data stream that has arrived, and two for each that is on its way or owed for a request.
  pub data_runs_end :
      {w t u : DataWorld p.parts.q} {n : ℕ}
      → IsDataNew p w
      → DataReach p w t
      → DataRun p n t u
      → n ≤ data_budget p t
  data_runs_end {w} {t} new r run =
      let h = DataReach-IsDataSound p good (IsDataNew-IsDataSound p w new) r in
      omega (arith, DataRun-bounded run h, data_left-budget h)
