-- ===== src/System/Order.antt =====
-- What is true in every state that the system reaches, in whatever order its parts run.
use bxp_core.Base.{ℕ, ◌≡◌, ap, ◌∙◌, sym, true, List, ◌++◌, length, take, take-length-append}
use bxp_core.Exchange.Script.{replies}
use bxp_core.System.{World, Parts, Work, Step, Reach}
use bxp_core.System.Invariant.{Inv, IsSound, IsGood, IsNew, IsNew-IsSound}
use bxp_core.System.Oldest.{find-Asked, receive-Asked, find-Answered}
use bxp_core.System.Steps.{arrive_up-Inv, arrive_down-Inv, serve-Inv, receive-Inv, send-Inv}

module _ (p : Parts) where
  pub in_order :
      (t : World p.q)
      → IsSound p t
      → (t.serving ≡ true) × (n : ℕ) × (t.received ≡ replies p.status (take n t.asked))
  in_order t s = (
    s.inv.serving,
    length s.done,
    s.inv.received
        ∙ ap (replies p.status) (
            sym (take-length-append s.done (s.answered ++ s.waiting))
            ∙ ap (take (length s.done)) (sym s.inv.asked)),
  )

module _ (p : Parts) (good : IsGood p) where
  sound :
      {w : World p.q} {done answered waiting : List _} → Inv p w done answered waiting → IsSound p w
  sound {w} {done} {answered} {waiting} inv = record {
    done = done;
    answered = answered;
    waiting = waiting;
    inv = inv;
  }

  pub Work-IsSound : {w t : World p.q} → Work p w t → IsSound p w → IsSound p t
  Work-IsSound {w} (Work.arrive_up bs rest e) s = sound (arrive_up-Inv p good w bs rest e s.inv)
  Work-IsSound {w} (Work.arrive_down bs rest e) s = sound (arrive_down-Inv p good w bs rest e s.inv)
  Work-IsSound {w} (Work.serve r body rest run found got) s =
      let h = find-Asked p w s.waiting s.inv (rw found tt) in
      sound (serve-Inv p good w r s.inv h got)
  Work-IsSound {w} (Work.stop e run found failed) s =
      let h = find-Asked p w s.waiting s.inv found in
      let (got, left) = receive-Asked p w h in absurd (cc (got, failed))
  Work-IsSound {w} (Work.receive found) s =
      sound (receive-Inv p good w s.inv (find-Answered p w s.answered s.inv found))

  pub Step-IsSound : {w t : World p.q} → Step p w t → IsSound p w → IsSound p t
  Step-IsSound (Step.work m) s = Work-IsSound m s
  Step-IsSound {w} (Step.send r h) s = sound (send-Inv p good w r h s.inv)

  pub Reach-IsSound : {w t : World p.q} → IsSound p w → Reach p w t → IsSound p t
  Reach-IsSound s Reach.start = s
  Reach-IsSound s (Reach.later r m) = Step-IsSound m (Reach-IsSound s r)

  -- In every state that a new connection reaches, whatever requests that can be served the client
  -- has sent and in whatever pieces the bytes have arrived, the serving loop still runs, and the
  -- client's calls of `receive_response` have returned, without an error, the responses to its
  -- oldest requests: the first to the first, the second to the second and so on, each with the id
  -- of its request and the status of the router's policy.
  pub responses_in_order :
      {w t : World p.q}
      → IsNew p w
      → Reach p w t
      → (t.serving ≡ true) × (n : ℕ) × (t.received ≡ replies p.status (take n t.asked))
  responses_in_order {w} {t} new r = in_order p t (Reach-IsSound (IsNew-IsSound p w new) r)
