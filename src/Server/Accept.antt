-- ===== src/Server/Accept.antt =====
-- `BxpServer::accept` of src/server.rs.
use bxp_core.Base.{ℕ, ◌≡◌, ◌⊎◌, inl, inr, some, none, Result-cases, ok, err}
use bxp_core.Base.Str.{codes}
use bxp_core.Quic.{Quic, IsQuic}
use bxp_core.Server.{abandoned, returned, accept_control, accept_handshake, accept_incoming, accept}

module _ {q : Quic} where
  -- A stopped endpoint or a failed handshake gives none, and no connection to give up.
  pub accept-none :
      (e : q.Endpoint)
      → ((q.accept e).0 ≡ none)
        ⊎ ((incoming : q.Incoming) × ((q.accept e).0 ≡ some incoming)
            × (code : ℕ) × (q.handshake incoming ≡ err code))
      → returned q (accept q e).0 ≡ none
  unfolding accept accept_incoming accept_handshake returned
  accept-none e (inl stop) = rw (stop, accept_incoming)
  accept-none e (inr (incoming, next, code, failed)) =
      rw (next, accept_incoming) (rw (failed, accept_handshake))

module _ {q : Quic} (spec : IsQuic q) where
  settled :
      (e : q.Endpoint) {incoming : q.Incoming} {c : q.Connection}
      → (q.accept e).0 ≡ some incoming
      → q.handshake incoming ≡ ok c
      → (accept q e).0 ≡ accept_control q (q.accept_bi c)
  unfolding accept accept_incoming accept_handshake
  settled e h k = rw (h, accept_incoming) (rw (k, accept_handshake))

  -- If the handshake of the next connection succeeds, there are two cases. Either the control
  -- stream that the client opened is accepted, and `accept` returns the connection with the two
  -- ends of that stream; or it cannot be accepted, and `accept` returns none and has closed the
  -- connection with code 1 and the reason `control stream failed`.
  pub accept_settles :
      (e : q.Endpoint) (incoming : q.Incoming) (c : q.Connection)
      → (q.accept e).0 ≡ some incoming
      → q.handshake incoming ≡ ok c
      → ((send : q.SendStream) × (recv : q.RecvStream) × ((q.accept_bi c).0 ≡ ok (send, recv))
          × (returned q (accept q e).0
              ≡ some (record {
                quic_conn = (q.accept_bi c).1;
                control_send = send;
                control_recv = recv;
              })))
        ⊎ ((code : ℕ) × ((q.accept_bi c).0 ≡ err code)
            × (d : q.Connection) × ((accept q e).0 ≡ abandoned d)
            × (returned q (accept q e).0 ≡ none)
            × (spec.closed_with d ≡ some (1, codes "control stream failed")))
  unfolding accept_control returned
  accept_settles e incoming c h k = elim (Result-cases (q.accept_bi c).0) [
    | inl ((send, recv), streams) ↦
        inl (send, recv, streams, rw (settled e h k) (rw (streams, accept_control)))
    | inr (code, failed) ↦ inr (
      code,
      failed,
      q.close 1 (codes "control stream failed") (q.accept_bi c).1,
      rw (settled e h k) (rw (failed, accept_control)),
      rw (settled e h k) (rw (failed, accept_control)),
      spec.close-records 1 (codes "control stream failed") (q.accept_bi c).1,
    )
  ]
