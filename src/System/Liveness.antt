-- ===== src/System/Liveness.antt =====
-- How runs of the system end.
use bxp_core.Base.{
  ℕ, zero, suc, ◌+◌, ◌≤◌, ◌<◌, ◌≡◌, ◌≢◌, refl, ap, ◌∙◌, sym, List, [], ◌∷◌, ◌++◌, append-nil,
  length, length-append, arith,
}
use bxp_core.Exchange.Response.{response_payload}
use bxp_core.Exchange.Script.{reply, replies}
use bxp_core.Frame.{frame}
use bxp_core.Protocol.{BxpRequest}
use bxp_core.System.{World, Parts, Work, Reach, appended, after_serve}
use bxp_core.System.Invariant.{Inv, IsGood, IsNew, IsNew-IsSound}
use bxp_core.System.Oldest.{all_asked, all_answered, find-Asked, receive-Asked, find-Answered}
use bxp_core.System.Order.{Reach-IsSound}
use bxp_core.System.Steps.{arrive_up-Inv, arrive_down-Inv, serve-appends, serve-Inv, receive-Inv}

module _ (p : Parts) where
  -- A step that does something: bytes arrive, and not none.
  abbrev pub IsBusy : {w t : World p.q} → Work p w t → Type 0
  IsBusy (Work.arrive_up bs rest e) = bs ≢ []
  IsBusy (Work.arrive_down bs rest e) = bs ≢ []
  IsBusy _ = Unit

  -- A run of `n` such steps.
  pub data Run : ℕ → World p.q → World p.q → Type 0 where
    halt : {w : World p.q} → Run zero w w
    step : {n : ℕ} {w t u : World p.q} (m : Work p w t) → IsBusy m → Run n t u → Run (suc n) w u

  -- The steps that are left for requests that wait, at most: one to serve each, one to read the
  -- response, and one for each byte of it.
  abbrev pub cost : List BxpRequest → ℕ
  cost [] = 0
  cost (r ∷ rs) = 2 + length (frame (response_payload p.codec (reply p.status r))) + cost rs

  abbrev pub left : World p.q → List BxpRequest → List BxpRequest → ℕ
  left w answered waiting = length w.up + length w.down + length answered + cost waiting

  record Closer (t : World p.q) (n : ℕ) : Type 0 where
    done : List BxpRequest
    answered : List BxpRequest
    waiting : List BxpRequest
    inv : Inv p t done answered waiting
    less : left t answered waiting < n

module _ (p : Parts) (good : IsGood p) where
  -- Each step that does something leaves less to do.
  closer :
      {w t : World p.q} {done answered waiting : List BxpRequest} (m : Work p w t)
      → IsBusy p m
      → Inv p w done answered waiting
      → Closer p t (left p w answered waiting)
  closer {w} {t} {done} {answered} {waiting} (Work.arrive_up [] rest e) busy inv =
      absurd (busy refl)
  closer {w} {t} {done} {answered} {waiting} (Work.arrive_up (b ∷ bs) rest e) busy inv = record {
    done = done;
    answered = answered;
    waiting = waiting;
    inv = arrive_up-Inv p good w (b ∷ bs) rest e inv;
    less = omega (arith, ap length e, length-append {0} bs rest);
  }
  closer {w} {t} {done} {answered} {waiting} (Work.arrive_down [] rest e) busy inv =
      absurd (busy refl)
  closer {w} {t} {done} {answered} {waiting} (Work.arrive_down (b ∷ bs) rest e) busy inv = record {
    done = done;
    answered = answered;
    waiting = waiting;
    inv = arrive_down-Inv p good w (b ∷ bs) rest e inv;
    less = omega (arith, ap length e, length-append {0} bs rest);
  }
  closer {w} {t} {done} {answered} {waiting} (Work.serve r body rest run found got) busy inv =
      let h = find-Asked p w waiting inv (rw found tt) in
      let (same, new, _, _) = serve-appends p good w inv h got in
      record {
        done = done;
        answered = answered ++ (h.oldest ∷ []);
        waiting = h.others;
        inv = serve-Inv p good w r inv h got;
        less = omega (
          arith,
          ap length new,
          ap (cost p) h.is_head,
          length-append {0} w.down (
              appended (p.spec.written w.server.control_send)
                (p.spec.written (after_serve p.q p.c p.router r w).control_send)),
          length-append {0} answered (h.oldest ∷ []),
        );
      }
  closer {w} (Work.stop e run found failed) busy inv =
      let h = find-Asked p w _ inv found in absurd (cc ((receive-Asked p w h).0, failed))
  closer {w} {t} {done} {answered} {waiting} (Work.receive found) busy inv =
      let h = find-Answered p w answered inv found in
      record {
        done = done ++ (h.oldest ∷ []);
        answered = h.others;
        waiting = waiting;
        inv = receive-Inv p good w inv h;
        less = omega (arith, ap length h.is_head);
      }

  Run-bounded :
      {n : ℕ} {w u : World p.q} {done answered waiting : List BxpRequest}
      → Run p n w u
      → Inv p w done answered waiting
      → n ≤ left p w answered waiting
  Run-bounded Run.halt inv = omega arith
  Run-bounded (Run.step m busy r) inv =
      let c = closer m busy inv in omega (arith, Run-bounded r c.inv, c.less)

module _ (p : Parts) where
  -- A bound on the steps that are left, by what can be seen of a state.
  abbrev pub budget : World p.q → ℕ
  budget w = length w.up + length w.down + cost p w.asked

  pub cost-append : (xs ys : List BxpRequest) → cost p (xs ++ ys) ≡ cost p xs + cost p ys
  cost-append [] ys = omega arith
  cost-append (r ∷ xs) ys = omega (arith, cost-append xs ys)

  length-cost : (xs : List BxpRequest) → length xs ≤ cost p xs
  length-cost [] = omega arith
  length-cost (r ∷ xs) = omega (arith, length-cost xs)

  pub left-budget :
      {w : World p.q} {done answered waiting : List BxpRequest}
      → Inv p w done answered waiting
      → left p w answered waiting ≤ budget w
  left-budget {w} {done} {answered} {waiting} inv = omega (
    arith,
    ap (cost p) inv.asked,
    cost-append done (answered ++ waiting),
    cost-append answered waiting,
    length-cost answered,
  )

module _ (p : Parts) (good : IsGood p) where
  -- Once the client sends nothing more, every run ends, however the network, the serving loop and
  -- the client take turns: from a state that a new connection reaches, no run in which each arrival
  -- brings at least one byte has more steps than the bytes on their way, the bytes of the responses
  -- to all requests, and two for each request.
  runs_end : {w t u : World p.q} {n : ℕ} → IsNew p w → Reach p w t → Run p n t u → n ≤ budget p t
  runs_end {w} {t} new r run =
      let s = Reach-IsSound p good (IsNew-IsSound p w new) r in
      omega (arith, Run-bounded p good run s.inv, left-budget p s.inv)

  -- Nothing can be done any more, except that the client sends.
  abbrev pub IsQuiet : World p.q → Type 0
  IsQuiet t = (u : World p.q) (m : Work p t u) → ¬ IsBusy p m

  quiet_up : (t : World p.q) (x : List ℕ) → t.up ≡ x → IsQuiet t → t.up ≡ []
  quiet_up t [] e quiet = e
  quiet_up t (b ∷ bs) e quiet =
      absurd
        (quiet _ (Work.arrive_up (b ∷ bs) [] (e ∙ sym (append-nil (b ∷ bs)))) (λ same. cc same))

  quiet_down : (t : World p.q) (x : List ℕ) → t.down ≡ x → IsQuiet t → t.down ≡ []
  quiet_down t [] e quiet = e
  quiet_down t (b ∷ bs) e quiet =
      absurd
        (quiet _ (Work.arrive_down (b ∷ bs) [] (e ∙ sym (append-nil (b ∷ bs)))) (λ same. cc same))

  pub quiet_done :
      (t : World p.q) (answered waiting : List BxpRequest) {done : List BxpRequest}
      → Inv p t done answered waiting
      → IsQuiet t
      → t.received ≡ replies p.status t.asked
  quiet_done t [] [] {done} inv quiet =
      inv.received ∙ ap (replies p.status) (sym (append-nil done) ∙ sym inv.asked)
  quiet_done t (r ∷ rs) waiting inv quiet =
      absurd (quiet _ (Work.receive (all_answered p t inv (quiet_down t t.down refl quiet))) tt)
  quiet_done t [] (r ∷ rs) inv quiet =
      let found = all_asked p t inv (quiet_up t t.up refl quiet) in
      let h = find-Asked p t (r ∷ rs) inv (rw found tt) in
      absurd (quiet _ (Work.serve h.oldest _ _ inv.serving found (receive-Asked p t h).0) tt)

  -- No run ends too early: in a state that a new connection reaches and in which no step but a
  -- further request of the client can be taken, the client has received the response to every
  -- request that it has sent, in order and without an error.
  quiet_answered :
      {w t : World p.q}
      → IsNew p w
      → Reach p w t
      → IsQuiet t
      → t.received ≡ replies p.status t.asked
  quiet_answered {w} {t} new r quiet =
      let s = Reach-IsSound p good (IsNew-IsSound p w new) r in
      quiet_done t s.answered s.waiting s.inv quiet
