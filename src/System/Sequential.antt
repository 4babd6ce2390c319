-- ===== src/System/Sequential.antt =====
-- The two ends and the network in any interleaving, against one call after another: the client
-- sends all its requests, then the serving loop runs to its end, and then the client reads.
use bxp_core.Base.{
  ℕ, zero, suc, ◌<◌, ◌≡◌, refl, ap, ◌∙◌, sym, List, [], ◌∷◌, ◌++◌, ok, length, take,
}
use bxp_core.Client.{ClientConnection}
use bxp_core.Exchange.Append.{AllServable-append}
use bxp_core.Exchange.Script.{
  request_frames, reply_frames, AllServable, IsReady, reply, replies, send_all, receive_all,
  written-send_all, receive_all-reply_frames,
}
use bxp_core.Protocol.{BxpRequest, BxpStatus}
use bxp_core.Server.{ServerConnection}
use bxp_core.Session.{serve}
use bxp_core.Session.Replies.{output}
use bxp_core.Session.Serving.{IsOpen, serve-request_frames}
use bxp_core.System.{World, Parts, Work, Step, Reach}
use bxp_core.System.Invariant.{IsGood, IsNew}
use bxp_core.System.Order.{responses_in_order}

replies-take :
    (status : BxpRequest → BxpStatus) (n : ℕ) (rs : List BxpRequest)
    → replies status (take n rs) ≡ take n (replies status rs)
replies-take status zero rs = refl
replies-take status (suc n) [] = refl
replies-take status (suc n) (r ∷ rs) = ap (λ l. ok (reply status r) ∷ l) (replies-take status n rs)

module _ (p : Parts) where
  abbrev Served : World p.q → Type 0
  Served w = AllServable p.codec p.status w.asked

  Work-Served : {w t : World p.q} → Work p w t → Served w → Served t
  Work-Served (Work.arrive_up bs rest e) h = h
  Work-Served (Work.arrive_down bs rest e) h = h
  Work-Served (Work.serve r body rest run found got) h = h
  Work-Served (Work.stop e run found failed) h = h
  Work-Served (Work.receive found) h = h

  Reach-Served : {w t : World p.q} → Served w → Reach p w t → Served t
  Reach-Served h Reach.start = h
  Reach-Served h (Reach.later r (Step.work m)) = Work-Served m (Reach-Served h r)
  Reach-Served h (Reach.later {t} r (Step.send request (sendable, replied))) =
      AllServable-append p.codec p.status t.asked (request ∷ []) (Reach-Served h r)
        (sendable, replied, tt)

module _ (p : Parts) (good : IsGood p) where
  -- The interleaving does not matter: in every state that a new connection reaches, what the client
  -- has received is what it receives first when one call follows the other, with the same
  -- requests: a client that is ready sends them all, the serving loop, with an open control stream
  -- and fuel for more rounds than there are requests, reads exactly what that client wrote, and a
  -- client that reads exactly what the loop wrote calls `receive_response` as often as there are
  -- requests.
  pub received_sequential :
      {w t : World p.q}
      → IsNew p w
      → Reach p w t
      → (n : ℕ) (client later : ClientConnection p.q) (server : ServerConnection p.q)
      → IsReady p.spec p.codec client
      → IsOpen p.spec server
      → p.spec.written client.control_send ≡ []
      → p.spec.written server.control_send ≡ []
      → p.spec.pending server.control_recv
        ≡ p.spec.written (send_all p.q p.c t.asked client).control_send
      → p.spec.pending later.control_recv ≡ output p.spec p.codec (serve p.q p.c n p.router server)
      → length t.asked < n
      → (k : ℕ) × (t.received ≡ take k (receive_all p.q p.c (length t.asked) later))
  received_sequential {w} {t} new r n client later server ready open_ none_sent none_written arrived
        back enough =
      let (_, k, received) = responses_in_order p good new r in
      let h = Reach-Served p (rw new.none_asked tt) r in
      let sent =
        written-send_all p.spec p.codec p.status t.asked client h ready
        ∙ ap (λ x. x ++ request_frames p.codec t.asked) none_sent in
      let (_, done, wrote, _) =
        serve-request_frames p.spec p.codec n p.router p.status t.asked server good h open_
          (arrived ∙ sent) enough in
      let all = receive_all-reply_frames p.spec p.codec p.status t.asked later h (
        back
        ∙ ap (output p.spec p.codec) done
        ∙ wrote
        ∙ ap (λ x. x ++ reply_frames p.codec p.status t.asked) none_written) in
      (k, received ∙ replies-take p.status k t.asked ∙ ap (take k) (sym all))
