-- ===== src/Session/Benchmark/Sent.antt =====
-- What the client of examples/benchmark.rs writes. It sends a ping only when it has received the
-- response to the one before, so how far it comes depends on what comes back.
use bxp_core.Base.{
  ℕ, zero, suc, ◌≤◌, ◌<◌, ◌≡◌, refl, ◌∙◌, ap, sym, inl, inr, List, [], ◌∷◌, ◌++◌, ◌-◌, append-nil,
  append_assoc, length, length-append, arith, ok, err, Result-cases, >>=-keeps,
}
use bxp_core.Base.Bytes.{to_le_bytes}
use bxp_core.Base.Str.{codes}
use bxp_core.Capnp.{Capnp, IsCapnp}
use bxp_core.Client.{ClientConnection, send_request, receive_response}
use bxp_core.Client.Receive.{receive_response_passive, receive_response-consumes}
use bxp_core.Exchange.Request.{request_payload, send_request-frame}
use bxp_core.Exchange.Response.{receive_response-frame}
use bxp_core.Exchange.Script.{request_frames, reply, reply_frames, AllServable, IsReady}
use bxp_core.Frame.{frame}
use bxp_core.Protocol.{BxpAction, BxpRequest, BxpResponse, BxpStatus, Error}
use bxp_core.Quic.{Quic, IsQuic}
use bxp_core.Session.Benchmark.{ping_at, pings, benchmark_loop, measured}
use bxp_core.Session.Benchmark.Library.{Std}

module _ {q : Quic} {c : Capnp} (spec : IsQuic q) (codec : IsCapnp c) (std : Std) where
  pub benchmark_loop-step :
      (i n : ℕ) (ls : List ℕ) (s : ClientConnection q) (t : std.Clock) {r : BxpResponse}
      → (send_request q c i BxpAction.ping (codes "bxp://benchmark") s).0 ≡ ok tt
      → (receive_response q c (send_request q c i BxpAction.ping (codes "bxp://benchmark") s).1).0
        ≡ ok r
      → let v = (std.now t).1 in
        benchmark_loop q c std i (suc n) ls (s, t)
        ≡ benchmark_loop q c std (suc i) n (ls ++ (((std.now v).0 - (std.now t).0) ∷ [])) (
          (receive_response q c
              (send_request q c i BxpAction.ping (codes "bxp://benchmark") s).1).1,
          (std.now v).1,
        )
  unfolding benchmark_loop
  benchmark_loop-step i n ls s t sent got = rw (sent, benchmark_loop) (rw (got) refl)

  -- Without a response the loop ends.
  benchmark_loop-ends :
      (i n : ℕ) (ls : List ℕ) (s : ClientConnection q) (t : std.Clock) {e : Error}
      → (send_request q c i BxpAction.ping (codes "bxp://benchmark") s).0 ≡ ok tt
      → (receive_response q c (send_request q c i BxpAction.ping (codes "bxp://benchmark") s).1).0
        ≡ err e
      → (benchmark_loop q c std i (suc n) ls (s, t)).1.0
        ≡ (receive_response q c (send_request q c i BxpAction.ping (codes "bxp://benchmark") s).1).1
  unfolding benchmark_loop
  benchmark_loop-ends i n ls s t sent failed = rw (sent, benchmark_loop) (rw (failed) refl)

  -- What the client has written after the loop.
  abbrev pub sent_from : ℕ → ℕ → List ℕ → ClientConnection q → std.Clock → List ℕ
  sent_from i n ls s t = spec.written (benchmark_loop q c std i n ls (s, t)).1.0.control_send

  -- Whatever comes back, the client writes a first part of its pings and nothing else.
  pub sent_from-prefix :
      (status : BxpRequest → BxpStatus) (n i : ℕ) (ls : List ℕ) (s : ClientConnection q)
      (t : std.Clock)
      → AllServable codec status (pings i n)
      → IsReady spec codec s
      → (m : ℕ) × (m ≤ n)
        × (sent_from i n ls s t ≡ spec.written s.control_send ++ request_frames codec (pings i m))
  unfolding benchmark_loop request_frames
  sent_from-prefix status zero i ls s t h up = (0, omega arith, sym (append-nil _))
  sent_from-prefix status (suc n) i ls s t (sendable, _, more) (up, open_) =
      let v = (send_request q c i BxpAction.ping (codes "bxp://benchmark") s).1 in
      let (res, wrote, up', open', _, _) =
        send_request-frame spec codec s (ping_at i) up open_ (omega (arith, sendable.small)) in
      let (_, same, _) = receive_response_passive q c v in
      let next = (std.now t).1 in
      elim (Result-cases (receive_response q c v).0) [
        | inl (r, got) ↦
            let ls' = ls ++ (((std.now next).0 - (std.now t).0) ∷ []) in
            let (m, few, sent) =
              sent_from-prefix status n (suc i) ls' (receive_response q c v).1 (std.now next).1 more
                (rw same (up', open')) in
            (
              suc m,
              omega (arith, few),
              ap (λ x. spec.written x.1.0.control_send) (benchmark_loop-step i n ls s t res got)
                  ∙ sent
                  ∙ ap (λ w. w ++ request_frames codec (pings (suc i) m))
                      (ap spec.written same ∙ wrote)
                  ∙ append_assoc {0} (spec.written s.control_send)
                      (frame (request_payload codec (ping_at i)))
                      (request_frames codec (pings (suc i) m)),
            )
        | inr (e, failed) ↦ (
          1,
          omega arith,
          ap (λ u. spec.written u.control_send) (benchmark_loop-ends i n ls s t res failed)
              ∙ ap spec.written same
              ∙ wrote
              ∙ ap (λ w. spec.written s.control_send ++ w) (sym (append-nil _)),
        )
      ]

  frame_counts : (w payload : List ℕ) → length w < length (w ++ frame payload)
  unfolding to_le_bytes
  frame_counts w payload = omega (arith, length-append w (frame payload))

  -- If the responses to the first `m` pings are all that comes back, and no more than `m` pings
  -- were sent, then these are all.
  pub sent_from-all :
      (status : BxpRequest → BxpStatus) (n m i : ℕ) (ls : List ℕ) (s : ClientConnection q)
      (t : std.Clock)
      → AllServable codec status (pings i n)
      → IsReady spec codec s
      → spec.pending s.control_recv ≡ reply_frames codec status (pings i m)
      → m ≤ n
      → sent_from i n ls s t ≡ spec.written s.control_send ++ request_frames codec (pings i m)
      → m ≡ n
  unfolding request_frames reply_frames
  sent_from-all status zero zero i ls s t h up p few sent = refl
  sent_from-all status zero (suc m) i ls s t h up p few sent = absurd (omega (arith, few))
  sent_from-all status (suc n) zero i ls s t (sendable, _, more) (up, open_) p few sent =
      let v = (send_request q c i BxpAction.ping (codes "bxp://benchmark") s).1 in
      let (res, wrote, up', open', inbox, _) =
        send_request-frame spec codec s (ping_at i) up open_ (omega (arith, sendable.small)) in
      let (_, same, _) = receive_response_passive q c v in
      elim (Result-cases (receive_response q c v).0) [
        | inl (r, got) ↦ absurd (
            omega (
              arith,
              receive_response-consumes spec c v got,
              ap (λ x. length (spec.pending x)) inbox,
              ap length p,
            ))
        | inr (e, failed) ↦
            let ended =
              ap (λ u. spec.written u.control_send) (benchmark_loop-ends i n ls s t res failed)
              ∙ ap spec.written same
              ∙ wrote in
            absurd (
              omega (
                arith,
                ap length (sym ended ∙ sent),
                frame_counts (spec.written s.control_send) (request_payload codec (ping_at i)),
                length-append (spec.written s.control_send) [],
              ))
      ]
  sent_from-all status (suc n) (suc m) i ls s t (sendable, replied, more) (up, open_) p few sent =
      let r = ping_at i in
      let v = (send_request q c i BxpAction.ping (codes "bxp://benchmark") s).1 in
      let (res, wrote, up', open', inbox, _) =
        send_request-frame spec codec s r up open_ (omega (arith, sendable.small)) in
      let (_, same, _) = receive_response_passive q c v in
      let (got, left) =
        receive_response-frame spec codec v (reply status r)
          (reply_frames codec status (pings (suc i) m)) replied (ap spec.pending inbox ∙ p) in
      let next = (std.now t).1 in
      let ls' = ls ++ (((std.now next).0 - (std.now t).0) ∷ []) in
      let u = (receive_response q c v).1 in
      let later =
        ap (λ x. spec.written x.1.0.control_send) (sym (benchmark_loop-step i n ls s t res got))
        ∙ sent
        ∙ sym (
            append_assoc {0} (spec.written s.control_send) (frame (request_payload codec r))
              (request_frames codec (pings (suc i) m)))
        ∙ ap (λ w. w ++ request_frames codec (pings (suc i) m))
            (sym (ap spec.written same ∙ wrote)) in
      ap suc (
        sent_from-all status n m (suc i) ls' u (std.now next).1 more (rw same (up', open')) left
          (omega (arith, few)) later)

  -- The clock and the sorting write nothing.
  pub written-measured :
      (n : ℕ) (s : ClientConnection q) (t : std.Clock)
      → spec.written (measured q c std n (s, t)).1.0.control_send ≡ sent_from 0 n [] s (std.now t).1
  unfolding measured
  written-measured n s t =
      >>=-keeps (λ x. spec.written x.0.control_send) (benchmark_loop q c std 0 n []) _
        (s, (std.now t).1) (λ ls u. refl)

-- Of so many pings, fewer can be served too.
pub pings-AllServable :
    {c : Capnp} (codec : IsCapnp c) (status : BxpRequest → BxpStatus) (m n i : ℕ)
    → m ≤ n
    → AllServable codec status (pings i n)
    → AllServable codec status (pings i m)
pings-AllServable codec status zero n i few h = tt
pings-AllServable codec status (suc m) zero i few h = absurd (omega (arith, few))
pings-AllServable codec status (suc m) (suc n) i few (sendable, replied, more) =
    (sendable, replied, pings-AllServable codec status m n (suc i) (omega (arith, few)) more)
