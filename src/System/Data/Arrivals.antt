-- ===== src/System/Data/Arrivals.antt =====
-- The arrival of a data stream and its reading keep the invariant.
use bxp_core.Base.{ℕ, ◌≡◌, refl, ap, ap₂, ◌∙◌, sym, true, List, [], ◌∷◌, ◌++◌, ok}
use bxp_core.Exchange.Streams.{tagged, AllIds}
use bxp_core.Protocol.{BxpRequest}
use bxp_core.Session.{take_stream}
use bxp_core.System.Data.{DataWorld, DataParts, landed, took}
use bxp_core.System.Data.Invariant.{IsDataSound}
use bxp_core.System.Data.Owed.{
  tagged_nil, all_read-append, tagged-append, AllIds-append, pick, arrives, is_read,
}
use bxp_core.System.Data.Take.{take_stream-next}
use bxp_core.System.Invariant.{Inv}
use bxp_core.Client.{ClientConnection}

module _ (p : DataParts) (w : DataWorld p.parts.q) where
  -- A step that changes the client's connection alone.
  pub client-Inv :
      (client : ClientConnection p.parts.q) {done answered waiting : List BxpRequest}
      → Inv p.parts w.base done answered waiting
      → client.control_recv ≡ w.base.client.control_recv
      → client.control_send ≡ w.base.client.control_send
      → Inv p.parts (record w.base { client = client }) done answered waiting
  client-Inv client inv inbox send = record {
    asked = inv.asked;
    replied = inv.replied;
    servable = inv.servable;
    up = inv.up;
    down = rw inbox inv.down;
    received = inv.received;
    ready = rw send inv.ready;
    opened = inv.opened;
    serving = inv.serving;
  }

  unfoldable pub land-IsDataSound :
      (xs : List (List ℕ)) (s : List ℕ) (ys : List (List ℕ))
      → w.flying ≡ xs ++ (s ∷ ys)
      → IsDataSound p w
      → IsDataSound p (landed p w s (xs ++ ys))
  unfolding tagged
  land-IsDataSound xs s ys e h =
      let i = h.inv in
      let k = pick i.flown xs s ys i.flown_ids (sym i.flying ∙ e) in
      let conn = w.base.client.quic_conn in
      record {
        done = h.done;
        answered = h.answered;
        waiting = h.waiting;
        inv = record {
          base = client-Inv _ i.base refl refl;
          got = i.got;
          here = i.here ++ ((k.req_id, k.payload) ∷ []);
          flown = k.before ++ k.after;
          taken = i.taken;
          incoming =
              p.landing.incoming-land s conn
              ∙ ap₂ (λ l x. l ++ (x ∷ [])) i.incoming k.this
              ∙ sym (tagged-append i.here ((k.req_id, k.payload) ∷ []));
          flying = ap₂ ◌++◌ k.head k.rest ∙ sym (tagged-append k.before k.after);
          here_ids = AllIds-append i.here _ i.here_ids (k.fits, tt);
          flown_ids = k.others;
          sorted = arrives i.got i.here i.flown k.before _ k.after k.is_split i.sorted;
          live = i.live;
          whole = p.landing.whole-land s conn i.whole;
        };
      }

  -- What the client gets of a stream that has arrived.
  pub record Took (h : IsDataSound p w) (rest : List (List ℕ)) : Type 0 where
    pub t : ℕ × List ℕ
    pub others : List (ℕ × List ℕ)
    pub first : h.inv.here ≡ t ∷ others
    pub bytes : rest ≡ tagged others
    pub ids : AllIds others
    pub read : (take_stream p.parts.q w.base.client).0 ≡ ok t
    pub left : p.parts.spec.incoming (took p w).base.client.quic_conn ≡ rest
    pub still : p.parts.spec.whole (took p w).base.client.quic_conn ≡ true
    pub inbox : (took p w).base.client.control_recv ≡ w.base.client.control_recv
    pub send : (took p w).base.client.control_send ≡ w.base.client.control_send

  pub take_lem :
      (s : List ℕ) (rest : List (List ℕ)) (h : IsDataSound p w)
      → p.parts.spec.incoming w.base.client.quic_conn ≡ s ∷ rest
      → Took h rest
  take_lem s rest h e =
      let i = h.inv in
      let k = pick i.here [] s rest i.here_ids (sym i.incoming ∙ e) in
      let none_before = tagged_nil k.before k.head in
      let (read, left, still, inbox, send) =
        take_stream-next p.parts.spec w.base.client k.req_id k.payload rest k.fits i.whole
          (e ∙ ap (λ x. x ∷ rest) k.this) in
      record {
        t = (k.req_id, k.payload);
        others = k.after;
        first = rw none_before at k.is_split;
        bytes = k.rest;
        ids = rw none_before at k.others;
        read = read;
        left = left;
        still = still;
        inbox = inbox;
        send = send;
      }

  pub took-incoming :
      (s : List ℕ) (rest : List (List ℕ))
      → IsDataSound p w
      → p.parts.spec.incoming w.base.client.quic_conn ≡ s ∷ rest
      → p.parts.spec.incoming (took p w).base.client.quic_conn ≡ rest
  took-incoming s rest h e = (take_lem s rest h e).left

  unfoldable pub take-IsDataSound :
      (s : List ℕ) (rest : List (List ℕ))
      → p.parts.spec.incoming w.base.client.quic_conn ≡ s ∷ rest
      → IsDataSound p w
      → IsDataSound p (took p w)
  take-IsDataSound s rest e h =
      let i = h.inv in
      let k = take_lem s rest h e in
      record {
        done = h.done;
        answered = h.answered;
        waiting = h.waiting;
        inv = record {
          base = client-Inv _ i.base k.inbox k.send;
          got = i.got ++ (k.t ∷ []);
          here = k.others;
          flown = i.flown;
          taken =
              ap₂ (λ l x. l ++ (x ∷ [])) i.taken k.read ∙ sym (all_read-append i.got (k.t ∷ []));
          incoming = k.left ∙ k.bytes;
          flying = i.flying;
          here_ids = k.ids;
          flown_ids = i.flown_ids;
          sorted = is_read i.got i.here i.flown k.t k.others k.first i.sorted;
          live = i.live;
          whole = k.still;
        };
      }
