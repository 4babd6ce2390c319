-- ===== src/System/Drain.antt =====
-- From a state that the system reaches on: the steps that serve and receive what was sent.
use bxp_core.Base.{◌≡◌, refl, ap, ◌∙◌, sym, List, [], ◌∷◌, ◌++◌, append-nil, append_assoc}
use bxp_core.Exchange.Script.{replies}
use bxp_core.Protocol.{BxpRequest}
use bxp_core.System.{World, Parts, Work, Works, Reach, served, read, arrived_up, arrived_down}
use bxp_core.System.Invariant.{Inv, IsSound, IsGood, IsNew, IsNew-IsSound}
use bxp_core.System.Oldest.{all_asked, all_answered, find-Asked, receive-Asked, find-Answered}
use bxp_core.System.Order.{Reach-IsSound}
use bxp_core.System.Steps.{arrive_up-Inv, arrive_down-Inv, serve-Inv, receive-Inv}

module _ (p : Parts) (good : IsGood p) where
  join : {w t u : World p.q} → Works p w t → Works p t u → Works p w u
  join Works.idle k = k
  join (Works.more m h) k = Works.more m (join h k)

  -- Where the steps led to, with the requests as they are divided then.
  record Drained (w : World p.q) (done answered waiting : List BxpRequest) : Type 0 where
    end : World p.q
    steps : Works p w end
    inv : Inv p end done answered waiting
    same : end.asked ≡ w.asked
    up : end.up ≡ w.up

  -- The same division of the requests, written otherwise.
  pub divide :
      {w : World p.q} {done done' answered answered' waiting waiting' : List BxpRequest}
      → done ≡ done'
      → answered ≡ answered'
      → waiting ≡ waiting'
      → Inv p w done answered waiting
      → Inv p w done' answered' waiting'
  divide d a e inv = rw (← d, ← a, ← e) inv

  serve_all :
      (waiting : List BxpRequest) (w : World p.q) {done answered : List BxpRequest}
      → Inv p w done answered waiting
      → w.up ≡ []
      → Drained w done (answered ++ waiting) []
  serve_all [] w {done} {answered} inv none_up = record {
    end = w;
    steps = Works.idle;
    inv = divide refl (sym (append-nil answered)) refl inv;
    same = refl;
    up = refl;
  }
  serve_all (r ∷ rs) w {done} {answered} inv none_up =
      let found = all_asked p w inv none_up in
      let h = find-Asked p w (r ∷ rs) inv (rw found tt) in
      let (got, left) = receive-Asked p w h in
      let first : h.oldest ≡ r = cc (h.is_head) in
      let after : h.others ≡ rs = cc (h.is_head) in
      let kept =
        divide refl (ap (λ x. answered ++ (x ∷ [])) first) after
          (serve-Inv p good w h.oldest inv h got) in
      let d = serve_all rs (served p w h.oldest) kept none_up in
      record {
        end = d.end;
        steps = Works.more {u = d.end} (Work.serve h.oldest _ _ inv.serving found got) d.steps;
        inv = divide refl (append_assoc answered (r ∷ []) rs) refl d.inv;
        same = d.same;
        up = d.up;
      }

  read_all :
      (answered : List BxpRequest) (w : World p.q) {done waiting : List BxpRequest}
      → Inv p w done answered waiting
      → w.down ≡ []
      → Drained w (done ++ answered) [] waiting
  read_all [] w {done} inv none_down = record {
    end = w;
    steps = Works.idle;
    inv = divide (sym (append-nil done)) refl refl inv;
    same = refl;
    up = refl;
  }
  read_all (r ∷ rs) w {done} inv none_down =
      let found = all_answered p w inv none_down in
      let h = find-Answered p w (r ∷ rs) inv found in
      let first : h.oldest ≡ r = cc (h.is_head) in
      let after : h.others ≡ rs = cc (h.is_head) in
      let kept =
        divide (ap (λ x. done ++ (x ∷ [])) first) after refl (receive-Inv p good w inv h) in
      let d = read_all rs (read p w) kept none_down in
      record {
        end = d.end;
        steps = Works.more {u = d.end} (Work.receive found) d.steps;
        inv = divide (append_assoc done (r ∷ []) rs) refl refl d.inv;
        same = d.same;
        up = d.up;
      }

  -- The steps from a sound state.
  pub drain :
      {t : World p.q}
      → IsSound p t
      → (u : World p.q) × Works p t u
        × (u.asked ≡ t.asked)
        × (u.received ≡ replies p.status t.asked)
  drain {t} s =
      let a = arrived_up p t t.up [] in
      let d =
        serve_all s.waiting a (arrive_up-Inv p good t t.up [] (sym (append-nil t.up)) s.inv) refl in
      let b = arrived_down p d.end d.end.down [] in
      let e =
        read_all (s.answered ++ s.waiting) b
          (arrive_down-Inv p good d.end d.end.down [] (sym (append-nil d.end.down)) d.inv) refl in
      (
        e.end,
        Works.more {u = e.end} (Work.arrive_up t.up [] (sym (append-nil t.up))) (
            join d.steps (
              Works.more {u = e.end} (Work.arrive_down d.end.down [] (sym (append-nil d.end.down)))
                e.steps)),
        e.same ∙ d.same,
        e.inv.received ∙ ap (replies p.status) (sym s.inv.asked),
      )

  -- The system never gets stuck: from every state that a new connection reaches, the network, the
  -- serving loop and the client's reading alone can bring it to a state in which the client has
  -- received the response to every request that it has sent, in order and without an error.
  everything_answered :
      {w t : World p.q}
      → IsNew p w
      → Reach p w t
      → (u : World p.q) × Works p t u
        × (u.asked ≡ t.asked)
        × (u.received ≡ replies p.status t.asked)
  everything_answered {w} {t} new r = drain (Reach-IsSound p good (IsNew-IsSound p w new) r)
