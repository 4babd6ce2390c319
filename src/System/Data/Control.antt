-- ===== src/System/Data/Control.antt =====
-- The steps of System, with the data streams that the server opens in them, keep the invariant.
use bxp_core.Base.{
  ◌≡◌, refl, ap, ap₂, ◌∙◌, sym, true, List, [], ◌∷◌, ◌++◌, append-nil, append_assoc, ok, length,
  drop, drop-length-append, arith,
}
use bxp_core.Client.Receive.{receive_response_passive}
use bxp_core.Exchange.Request.{send_request-frame}
use bxp_core.Exchange.Streams.{tagged}
use bxp_core.Protocol.{BxpRequest}
use bxp_core.Server.{receive_request}
use bxp_core.Server.Receive.{receive_request_passive}
use bxp_core.System.{World, Work, appended, served, sent, after_serve, IsServable}
use bxp_core.System.Data.{DataWorld, DataParts, moved}
use bxp_core.System.Data.Invariant.{IsDataSound, IsDataGood}
use bxp_core.System.Data.Owed.{
  under, tagged-append, under-AllIds, AllIds-append, set_out, owed-serve,
}
use bxp_core.System.Invariant.{Inv}
use bxp_core.System.Oldest.{Asked, find-Asked, receive-Asked, find-Answered}
use bxp_core.System.Steps.{
  appended_lem, arrive_up-Inv, arrive_down-Inv, serve-Inv, receive-Inv, send-Inv,
}

-- Nothing was appended.
pub nothing_appended : {A : Type 0} (xs before : List A) → xs ++ appended before before ≡ xs
nothing_appended xs before =
    ap (λ d. xs ++ d)
      (ap (drop (length before)) (sym (append-nil before)) ∙ drop-length-append before [])
    ∙ append-nil xs

module _ (p : DataParts) (good : IsDataGood p) (w : DataWorld p.parts.q) where
  -- A step that opens no data stream.
  unfoldable pub keeps :
      {t : World p.parts.q} {done answered waiting : List BxpRequest} (h : IsDataSound p w)
      → Inv p.parts t done answered waiting
      → done ++ answered ≡ h.done ++ h.answered
      → t.server.quic_conn ≡ w.base.server.quic_conn
      → t.client.quic_conn ≡ w.base.client.quic_conn
      → IsDataSound p (moved p w t)
  keeps {t} {done} {answered} {waiting} h base same server client =
      let i = h.inv in
      record {
        done = done;
        answered = answered;
        waiting = waiting;
        inv = record {
          base = base;
          got = i.got;
          here = i.here;
          flown = i.flown;
          taken = i.taken;
          incoming = rw client i.incoming;
          flying =
              rw server (nothing_appended w.flying (p.parts.spec.delivered w.base.server.quic_conn))
              ∙ i.flying;
          here_ids = i.here_ids;
          flown_ids = i.flown_ids;
          sorted = rw same i.sorted;
          live = rw server i.live;
          whole = rw client i.whole;
        };
      }

  -- The data streams that a served request sets off.
  pub serve-streams :
      {done answered waiting : List BxpRequest} {r : BxpRequest}
      → Inv p.parts w.base done answered waiting
      → p.parts.spec.alive w.base.server.quic_conn ≡ true
      → (h : Asked p.parts w.base waiting)
      → (receive_request p.parts.q p.parts.c w.base.server).0 ≡ ok r
      → let u = after_serve p.parts.q p.parts.c p.parts.router r w.base in
        (appended
            (p.parts.spec.delivered w.base.server.quic_conn)
            (p.parts.spec.delivered u.quic_conn)
          ≡ tagged (under h.oldest.req_id (p.payloads h.oldest)))
        × (p.parts.spec.alive u.quic_conn ≡ true)
  serve-streams {r = r} inv live h got =
      let (res, left) = receive-Asked p.parts w.base h in
      let same : h.oldest ≡ r = cc (res, got) in
      let (conn, send) = receive_request_passive p.parts.q p.parts.c w.base.server in
      let t = (receive_request p.parts.q p.parts.c w.base.server).1 in
      let (sent, still) = good.1 h.oldest t h.replied (rw send inv.opened) (rw conn live) in
      rw (← same)
        (appended_lem (p.parts.spec.delivered w.base.server.quic_conn) (sent ∙ rw conn refl), still)

  unfoldable pub serve-IsDataSound :
      (r : BxpRequest) (h : IsDataSound p w)
      → Asked p.parts w.base h.waiting
      → (receive_request p.parts.q p.parts.c w.base.server).0 ≡ ok r
      → IsDataSound p (moved p w (served p.parts w.base r))
  serve-IsDataSound r h a got =
      let i = h.inv in
      let new = under a.oldest.req_id (p.payloads a.oldest) in
      let (sent, still) = serve-streams i.base i.live a got in
      record {
        done = h.done;
        answered = h.answered ++ (a.oldest ∷ []);
        waiting = a.others;
        inv = record {
          base = serve-Inv p.parts good.0 w.base r i.base a got;
          got = i.got;
          here = i.here;
          flown = i.flown ++ new;
          taken = i.taken;
          incoming = i.incoming;
          flying = ap₂ ◌++◌ i.flying sent ∙ sym (tagged-append i.flown new);
          here_ids = i.here_ids;
          flown_ids =
              AllIds-append i.flown new i.flown_ids
                (under-AllIds a.oldest.req_id (p.payloads a.oldest) a.sendable.id_fits);
          sorted =
              rw (owed-serve p.payloads h.done h.answered a.oldest)
                (set_out i.got i.here i.flown new i.sorted);
          live = still;
          whole = i.whole;
        };
      }

  pub Work-IsDataSound :
      {t : World p.parts.q} → Work p.parts w.base t → IsDataSound p w → IsDataSound p (moved p w t)
  Work-IsDataSound (Work.arrive_up bs rest e) h =
      keeps h (arrive_up-Inv p.parts good.0 w.base bs rest e h.inv.base) refl refl refl
  Work-IsDataSound (Work.arrive_down bs rest e) h =
      keeps h (arrive_down-Inv p.parts good.0 w.base bs rest e h.inv.base) refl refl refl
  Work-IsDataSound (Work.serve r body rest run found got) h =
      serve-IsDataSound r h (find-Asked p.parts w.base h.waiting h.inv.base (rw found tt)) got
  Work-IsDataSound (Work.stop e run found failed) h =
      let a = find-Asked p.parts w.base h.waiting h.inv.base found in
      absurd (cc ((receive-Asked p.parts w.base a).0, failed))
  Work-IsDataSound (Work.receive found) h =
      let a = find-Answered p.parts w.base h.answered h.inv.base found in
      keeps h (receive-Inv p.parts good.0 w.base h.inv.base a)
        (append_assoc h.done (a.oldest ∷ []) a.others ∙ ap (λ l. h.done ++ l) (sym a.is_head)) refl
        (receive_response_passive p.parts.q p.parts.c w.base.client).0

  unfoldable pub send-IsDataSound :
      (r : BxpRequest)
      → IsServable p.parts r
      → IsDataSound p w
      → IsDataSound p (record w { base = sent p.parts w.base r })
  send-IsDataSound r (sendable, replied) h =
      let i = h.inv in
      let (up, open_) = i.base.ready in
      let (res, wrote, up', open', inbox, conn) =
        send_request-frame p.parts.spec p.parts.codec w.base.client r up open_
          (omega (arith, sendable.small)) in
      record {
        done = h.done;
        answered = h.answered;
        waiting = h.waiting ++ (r ∷ []);
        inv = record {
          base = send-Inv p.parts good.0 w.base r (sendable, replied) i.base;
          got = i.got;
          here = i.here;
          flown = i.flown;
          taken = i.taken;
          incoming = rw conn i.incoming;
          flying = i.flying;
          here_ids = i.here_ids;
          flown_ids = i.flown_ids;
          sorted = i.sorted;
          live = i.live;
          whole = rw conn i.whole;
        };
      }
