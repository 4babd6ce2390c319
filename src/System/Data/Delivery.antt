-- ===== src/System/Data/Delivery.antt =====
-- What is true of the data streams in every state that the system reaches, in whatever order its
-- parts run and its streams arrive, and what it can still reach from there.
use bxp_core.Base.{
  ℕ, ◌≡◌, refl, true, ap, ◌∙◌, sym, List, [], ◌∷◌, ◌++◌, append-nil, append_assoc, take,
}
use bxp_core.Exchange.Script.{replies}
use bxp_core.Protocol.{BxpRequest, BxpStatus}
use bxp_core.System.{World, Works}
use bxp_core.System.Data.{DataWorld, DataParts, DataWork, DataWorks, DataReach, moved, landed, took}
use bxp_core.System.Data.Arrivals.{took-incoming}
use bxp_core.System.Data.Invariant.{IsDataGood, IsDataNew, IsDataSound, IsDataNew-IsDataSound}
use bxp_core.System.Data.Owed.{owed, owed-append, all_read, tagged_nil}
use bxp_core.System.Data.Steps.{DataWork-IsDataSound, DataReach-IsDataSound}
use bxp_core.System.Drain.{drain}
use bxp_core.System.Invariant.{IsSound}
use bxp_core.System.Order.{in_order}
use mathlib.Core.List.Permᴰ
use mathlib.Core.List.{Permᴰ}

replies_longer :
    (status : BxpRequest → BxpStatus) (xs ys : List BxpRequest)
    → replies status xs ≡ replies status (xs ++ ys)
    → ys ≡ []
replies_longer status [] [] e = refl
replies_longer status [] (r ∷ ys) e = absurd (cc e)
replies_longer status (x ∷ xs) ys e = replies_longer status xs ys (cc e)

append_is_nil : {A : Type 0} (xs ys : List A) → xs ++ ys ≡ [] → xs ≡ []
append_is_nil [] ys e = refl
append_is_nil (x ∷ xs) ys e = absurd (cc e)

module _ (p : DataParts) where
  pub base-IsSound : {w : DataWorld p.parts.q} → IsDataSound p w → IsSound p.parts w.base
  base-IsSound h = record {
    done = h.done;
    answered = h.answered;
    waiting = h.waiting;
    inv = h.inv.base;
  }

  -- The streams that the client has read are some of those that are owed for all requests.
  some_taken :
      {w : DataWorld p.parts.q}
      → IsDataSound p w
      → (got missing : List (ℕ × List ℕ)) × (w.taken ≡ all_read got)
        × Permᴰ (owed p.payloads w.base.asked) (got ++ missing)
  some_taken {w} h =
      let i = h.inv in
      let later = i.here ++ i.flown in
      let all : owed p.payloads w.base.asked
          ≡ owed p.payloads (h.done ++ h.answered) ++ owed p.payloads h.waiting =
        ap (owed p.payloads) (i.base.asked ∙ sym (append_assoc h.done h.answered h.waiting))
        ∙ owed-append p.payloads (h.done ++ h.answered) h.waiting in
      (
        i.got,
        later ++ owed p.payloads h.waiting,
        i.taken,
        rw (all, ← append_assoc i.got later (owed p.payloads h.waiting))
            (Permᴰ.append_right (owed p.payloads h.waiting) i.sorted),
      )

  lift_works :
      (w : DataWorld p.parts.q) {t : World p.parts.q}
      → Works p.parts w.base t
      → (u : DataWorld p.parts.q) × DataWorks p w u × (u.base ≡ t)
  lift_works w Works.idle = (w, DataWorks.idle, refl)
  lift_works w (Works.more {t = v} m k) =
      let (u, steps, same) = lift_works (moved p w v) k in
      (u, DataWorks.more (DataWork.control m) steps, same)

  join : {w t u : DataWorld p.parts.q} → DataWorks p w t → DataWorks p t u → DataWorks p w u
  join DataWorks.idle k = k
  join (DataWorks.more m h) k = DataWorks.more m (join h k)

module _ (p : DataParts) (good : IsDataGood p) where
  DataWorks-IsDataSound :
      {w t : DataWorld p.parts.q} → DataWorks p w t → IsDataSound p w → IsDataSound p t
  DataWorks-IsDataSound DataWorks.idle h = h
  DataWorks-IsDataSound {w} (DataWorks.more m k) h =
      DataWorks-IsDataSound k (DataWork-IsDataSound p good w m h)

  -- Where steps led that leave the log of requests and responses alone.
  record Settled (w : DataWorld p.parts.q) : Type 0 where
    end : DataWorld p.parts.q
    steps : DataWorks p w end
    same_asked : end.base.asked ≡ w.base.asked
    same_received : end.base.received ≡ w.base.received

  land_all :
      (ss : List (List ℕ)) (w : DataWorld p.parts.q)
      → w.flying ≡ ss
      → (d : Settled w) × (d.end.flying ≡ [])
  land_all [] w e =
      (record { end = w; steps = DataWorks.idle; same_asked = refl; same_received = refl }, e)
  land_all (s ∷ ss) w e =
      let (d, none_left) = land_all ss (landed p w s ss) refl in
      (
        record {
          end = d.end;
          steps = DataWorks.more (DataWork.land [] s ss e) d.steps;
          same_asked = d.same_asked;
          same_received = d.same_received;
        },
        none_left,
      )

  take_all :
      (ss : List (List ℕ)) (w : DataWorld p.parts.q)
      → IsDataSound p w
      → w.flying ≡ []
      → p.parts.spec.incoming w.base.client.quic_conn ≡ ss
      → (d : Settled w) × (d.end.flying ≡ [])
        × (p.parts.spec.incoming d.end.base.client.quic_conn ≡ [])
  take_all [] w h f e =
      (record { end = w; steps = DataWorks.idle; same_asked = refl; same_received = refl }, f, e)
  take_all (s ∷ ss) w h f e =
      let step : DataWork p w (took p w) = DataWork.take s ss e in
      let (d, none_flying, none_left) =
        take_all ss (took p w) (DataWork-IsDataSound p good w step h) f
          (took-incoming p w s ss h e) in
      (
        record {
          end = d.end;
          steps = DataWorks.more step d.steps;
          same_asked = d.same_asked;
          same_received = d.same_received;
        },
        none_flying,
        none_left,
      )

  -- All responses were received, and no stream is left.
  pub all_taken :
      (w : DataWorld p.parts.q) {requests : List BxpRequest}
      → IsDataSound p w
      → w.base.asked ≡ requests
      → w.base.received ≡ replies p.parts.status requests
      → w.flying ≡ []
      → p.parts.spec.incoming w.base.client.quic_conn ≡ []
      → (got : List (ℕ × List ℕ)) × (w.taken ≡ all_read got) × Permᴰ (owed p.payloads requests) got
  all_taken w {requests} h same_asked answered none_flying none_here =
      let i = h.inv in
      let rest = replies_longer p.parts.status h.done (h.answered ++ h.waiting) (
        sym i.base.received
        ∙ answered
        ∙ ap (replies p.parts.status) (sym same_asked ∙ i.base.asked)) in
      let asked : requests ≡ h.done ++ h.answered =
        sym same_asked
        ∙ i.base.asked
        ∙ ap (λ l. h.done ++ l) (rest ∙ sym (append_is_nil h.answered h.waiting rest)) in
      let no_here = tagged_nil i.here (sym none_here ∙ i.incoming) in
      let no_flown = tagged_nil i.flown (sym none_flying ∙ i.flying) in
      let same : i.got ++ (i.here ++ i.flown) ≡ i.got = rw (no_here, no_flown) (append-nil i.got) in
      (i.got, i.taken, rw asked (rw same at i.sorted))

  -- For a router that answers and sends data streams by its policies, on a connection that stays
  -- up: in every state that a new connection reaches, whatever requests that can be served the
  -- client has sent, and whenever bytes and data streams have arrived, the serving loop still runs,
  -- the client has received the responses to its oldest requests in order, every reading of a data
  -- stream has succeeded, and what was read, by request id and payload, is a part of what the
  -- router's policy owes for the requests that the client has sent, no stream more often than it
  -- is owed.
  pub streams_in_place :
      {w t : DataWorld p.parts.q}
      → IsDataNew p w
      → DataReach p w t
      → (t.base.serving ≡ true)
        × ((n : ℕ) × (t.base.received ≡ replies p.parts.status (take n t.base.asked)))
        × (got missing : List (ℕ × List ℕ)) × (t.taken ≡ all_read got)
        × Permᴰ (owed p.payloads t.base.asked) (got ++ missing)
  streams_in_place {w} {t} new r =
      let h = DataReach-IsDataSound p good (IsDataNew-IsDataSound p w new) r in
      let (serving, n, received) = in_order p.parts t.base (base-IsSound p h) in
      let (got, missing, read, sorted) = some_taken p h in
      (serving, (n, received), got, missing, read, sorted)

  -- For a router that answers and sends data streams by its policies, on a connection that stays
  -- up, the system never gets stuck: from every state that a new connection reaches, the network,
  -- the serving loop and the client's reading alone can bring it to a state in which the client
  -- has received the response to every request that it has sent, and has read exactly the data
  -- streams that are owed for them, each with its request id and its whole payload.
  pub everything_delivered :
      {w t : DataWorld p.parts.q}
      → IsDataNew p w
      → DataReach p w t
      → (u : DataWorld p.parts.q) × DataWorks p t u
        × (u.base.asked ≡ t.base.asked)
        × (u.base.received ≡ replies p.parts.status t.base.asked)
        × (got : List (ℕ × List ℕ)) × (u.taken ≡ all_read got)
        × Permᴰ (owed p.payloads t.base.asked) got
  everything_delivered {w} {t} new r =
      let h = DataReach-IsDataSound p good (IsDataNew-IsDataSound p w new) r in
      let (v, works, asked, received) = drain p.parts good.0 (base-IsSound p h) in
      let (a, first, at_v) = lift_works p t works in
      let (b, none_flying) = land_all a.flying a refl in
      let after = DataWorks-IsDataSound (join p first b.steps) h in
      let (d, still_none, none_left) =
        take_all (p.parts.spec.incoming b.end.base.client.quic_conn) b.end after none_flying refl in
      let same_asked : d.end.base.asked ≡ t.base.asked =
        d.same_asked ∙ b.same_asked ∙ ap (λ x. x.asked) at_v ∙ asked in
      let all : d.end.base.received ≡ replies p.parts.status t.base.asked =
        d.same_received ∙ b.same_received ∙ ap (λ x. x.received) at_v ∙ received in
      let (got, read, sorted) =
        all_taken d.end (DataWorks-IsDataSound d.steps after) same_asked all still_none none_left in
      (d.end, join p first (join p b.steps d.steps), same_asked, all, got, read, sorted)
