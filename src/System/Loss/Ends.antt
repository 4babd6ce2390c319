-- ===== src/System/Loss/Ends.antt =====
-- Both ends notice that the connection is lost.
use bxp_core.Base.{
  ℕ, zero, suc, ◌<◌, ◌≡◌, refl, ap, ◌∙◌, true, false, Bool-cases, inl, inr, List, [], ◌∷◌, ◌++◌,
  Result, Result-cases, err, length, arith,
}
use bxp_core.Client.{receive_response}
use bxp_core.Client.Receive.{receive_response-consumes}
use bxp_core.Protocol.{BxpResponse, Error}
use bxp_core.Server.{receive_request}
use bxp_core.Server.Receive.{receive_request-consumes}
use bxp_core.Session.Serving.{KeepsInbox}
use bxp_core.System.{Parts, read, stopped}
use bxp_core.System.Loss.{LossWorld, LossStep, LossReach, served_late}

module _ (p : Parts) where
  join : {w t u : LossWorld p.q} → LossReach p w t → LossReach p t u → LossReach p w u
  join r LossReach.start = r
  join r (LossReach.later s m) = LossReach.later (join r s) m

  first : {w t u : LossWorld p.q} → LossStep p w t → LossReach p t u → LossReach p w u
  first m r = join (LossReach.later LossReach.start m) r

  -- Where the serving loop alone led.
  record Stopped (t : LossWorld p.q) : Type 0 where
    end : LossWorld p.q
    steps : LossReach p t end
    down : end.is_lost ≡ true
    ended : end.base.serving ≡ false
    same_asked : end.base.asked ≡ t.base.asked
    same_received : end.base.received ≡ t.base.received

  serve_out :
      (n : ℕ) (t : LossWorld p.q)
      → KeepsInbox p.c p.router
      → t.is_lost ≡ true
      → t.base.serving ≡ true
      → length (p.spec.pending t.base.server.control_recv) < n
      → Stopped t
  serve_out zero t keeps down run enough = elim enough [ ]
  serve_out (suc n) t keeps down run enough =
      elim (Result-cases (receive_request p.q p.c t.base.server).0) [
        | inl (r, got) ↦
            let left = receive_request-consumes p.spec p.c t.base.server got in
            let same = keeps r (receive_request p.q p.c t.base.server).1 in
            let s =
              serve_out n (served_late p t r) keeps down run
                (omega (arith, left, enough, ap (λ x. length (p.spec.pending x)) same)) in
            record {
              end = s.end;
              steps = first (LossStep.serve_late r down run got) s.steps;
              down = s.down;
              ended = s.ended;
              same_asked = s.same_asked;
              same_received = s.same_received;
            }
        | inr (e, failed) ↦ record {
          end = record t { base = stopped p t.base };
          steps = first (LossStep.stop_late e down run failed) LossReach.start;
          down = down;
          ended = refl;
          same_asked = refl;
          same_received = refl;
        }
      ]

  -- Where the client's calls of `receive_response` alone led.
  record Failed (t : LossWorld p.q) : Type 0 where
    end : LossWorld p.q
    steps : LossReach p t end
    same_serving : end.base.serving ≡ t.base.serving
    same_asked : end.base.asked ≡ t.base.asked
    before : List (Result Error BxpResponse)
    error : Error
    last : end.base.received ≡ before ++ (err error ∷ [])

  read_out :
      (n : ℕ) (t : LossWorld p.q)
      → t.is_lost ≡ true
      → length (p.spec.pending t.base.client.control_recv) < n
      → Failed t
  read_out zero t down enough = elim enough [ ]
  read_out (suc n) t down enough = elim (Result-cases (receive_response p.q p.c t.base.client).0) [
    | inl (r, got) ↦
        let left = receive_response-consumes p.spec p.c t.base.client got in
        let s = read_out n (record t { base = read p t.base }) down (omega (arith, left, enough)) in
        record {
          end = s.end;
          steps = first (LossStep.read_late down) s.steps;
          same_serving = s.same_serving;
          same_asked = s.same_asked;
          before = s.before;
          error = s.error;
          last = s.last;
        }
    | inr (e, failed) ↦ record {
      end = record t { base = read p t.base };
      steps = first (LossStep.read_late down) LossReach.start;
      same_serving = refl;
      same_asked = refl;
      before = t.base.received;
      error = e;
      last = ap (λ x. t.base.received ++ (x ∷ [])) failed;
    }
  ]

  stop_out : (t : LossWorld p.q) → KeepsInbox p.c p.router → t.is_lost ≡ true → Stopped t
  stop_out t keeps down = elim (Bool-cases t.base.serving) [
    | inl run ↦
        serve_out (suc (length (p.spec.pending t.base.server.control_recv))) t keeps down run
          (omega arith)
    | inr off ↦ record {
      end = t;
      steps = LossReach.start;
      down = down;
      ended = off;
      same_asked = refl;
      same_received = refl;
    }
  ]

  -- Whatever happened before, once the connection is lost neither end waits for ever, if no handler
  -- reads from the control stream: without a further request, steps lead to a state in which the
  -- serving loop has ended, and in which the client's last call of `receive_response` has returned
  -- an error.
  pub loss_noticed :
      (t : LossWorld p.q)
      → KeepsInbox p.c p.router
      → t.is_lost ≡ true
      → (u : LossWorld p.q) × LossReach p t u
        × (u.base.asked ≡ t.base.asked)
        × (u.base.serving ≡ false)
        × (before : List (Result Error BxpResponse)) × (e : Error) × (u.base.received
            ≡ before ++ (err e ∷ []))
  loss_noticed t keeps down =
      let s = stop_out t keeps down in
      let f =
        read_out (suc (length (p.spec.pending s.end.base.client.control_recv))) s.end s.down
          (omega arith) in
      (
        f.end,
        join s.steps f.steps,
        f.same_asked ∙ s.same_asked,
        f.same_serving ∙ s.ended,
        f.before,
        f.error,
        f.last,
      )
