-- ===== src/Session/Accepting.antt =====
-- The accept loop of the programs under examples/.
use bxp_core.Base.{
  ℕ, zero, suc, ◌<◌, ◌≡◌, ◌↔◌, refl, inl, inr, Option, some, none, List, [], ◌∷◌, err, length,
  Option-cases, arith,
}
use bxp_core.Quic.{Quic}
use bxp_core.Server.{ServerConnection, accept, returned}
use bxp_core.Server.Accept.{accept-none}
use bxp_core.Session.{accept_loop, accept_round, hand_over}

-- The endpoint `e` accepts the connections of the list one after the other, and is then `later`.
pub data Accepts (q : Quic) : q.Endpoint → List (ServerConnection q) → q.Endpoint → Type 0 where
  nobody : {e : q.Endpoint} → Accepts q e [] e
  next :
      {e later : q.Endpoint} {s : ServerConnection q} {ss : List (ServerConnection q)}
      → returned q (accept q e).0 ≡ some s
      → Accepts q (accept q e).1 ss later
      → Accepts q e (s ∷ ss) later

module _ {q : Quic} where
  accept_loop-none :
      (n : ℕ) (e : q.Endpoint)
      → returned q (accept q e).0 ≡ none
      → accept_loop q (suc n) e ≡ some ([], (accept q e).1)
  unfolding accept_loop accept_round
  accept_loop-none n e h = rw (h, accept_round)

  pub accept_loop-Accepts :
      (n : ℕ) {e later : q.Endpoint} {ss : List (ServerConnection q)}
      → Accepts q e ss later
      → returned q (accept q later).0 ≡ none
      → length ss < n
      → accept_loop q n e ≡ some (ss, (accept q later).1)
  unfolding accept_loop accept_round
  accept_loop-Accepts zero a stop enough = elim enough [ ]
  accept_loop-Accepts (suc n) Accepts.nobody stop enough = accept_loop-none n _ stop
  accept_loop-Accepts (suc n) (Accepts.next got more) stop enough =
      rw (got, accept_round) (rw (accept_loop-Accepts n more stop (omega arith)))

  -- One failed handshake ends the accept loop: after any number of clients was accepted, a client
  -- whose handshake fails makes the loop return with the connections so far, and the endpoint still
  -- holds whoever waits behind that client.
  pub accept_loop_refused :
      (n : ℕ) {e later : q.Endpoint} {ss : List (ServerConnection q)} (incoming : q.Incoming)
      (code : ℕ)
      → Accepts q e ss later
      → (q.accept later).0 ≡ some incoming
      → q.handshake incoming ≡ err code
      → length ss < n
      → accept_loop q n e ≡ some (ss, (q.accept later).1)
  unfolding accept
  accept_loop_refused n incoming code a h k enough =
      accept_loop-Accepts n a (accept-none _ (inr (incoming, h, code, k))) enough

module _ (q : Quic) where
  -- The run of a loop that returned: the connections are those that the endpoint accepts in order,
  -- up to the first call of `accept` that returned none.
  abbrev pub Ends : ℕ → q.Endpoint → List (ServerConnection q) × q.Endpoint → Type 0
  Ends n e (ss, f) =
      (later : q.Endpoint) × Accepts q e ss later
      × (returned q (accept q later).0 ≡ none)
      × (f ≡ (accept q later).1)
      × (length ss < n)

  abbrev Outcome : ℕ → q.Endpoint → Option (List (ServerConnection q) × q.Endpoint) → Type 0
  Outcome n e none = Unit
  Outcome n e (some r) = Ends n e r

  accept_loop-Outcome : (n : ℕ) (e : q.Endpoint) → Outcome n e (accept_loop q n e)
  unfolding accept_loop accept_round
  accept_loop-Outcome zero e = tt
  accept_loop-Outcome (suc n) e = elim (Option-cases (returned q (accept q e).0)) [
    | inl stop ↦ rw (stop, accept_round) (e, Accepts.nobody, stop, refl, omega arith)
    | inr (s, got) ↦
        let rest = accept_loop-Outcome n (accept q e).1 in
        elim (Option-cases (accept_loop q n (accept q e).1)) [
          | inl out ↦ rw (got, accept_round, out, hand_over) tt
          | inr ((ss, f), done) ↦
              let (later, a, stop, same, enough) = rw done at rest in
              rw (got, accept_round, done, hand_over)
                (later, Accepts.next got a, stop, same, omega arith)
        ]
  ]

  -- With fuel for `n` rounds the accept loop returns some connections exactly if they are fewer
  -- than `n`, the endpoint accepts them one after the other, and the next call of `accept` returns
  -- none, which it may do for a failed handshake as for a stopped endpoint; the endpoint is then
  -- what that last call left.
  pub accept_loop_iff :
      (n : ℕ) (e f : q.Endpoint) (ss : List (ServerConnection q))
      → (accept_loop q n e ≡ some (ss, f)) ↔ Ends n e (ss, f)
  accept_loop_iff n e f ss = (
    λ h. rw h at (accept_loop-Outcome n e),
    λ (later, a, stop, same, enough). rw same (accept_loop-Accepts n a stop enough),
  )
