-- ===== src/System/Data/Take.antt =====
-- What the client does with the next data stream that has arrived.
use bxp_core.Base.{ℕ, ◌<◌, ◌≡◌, refl, ap, ◌∙◌, true, List, ◌∷◌, ◌++◌, ok}
use bxp_core.Base.Bytes.{u32_mod, to_le_bytes}
use bxp_core.Client
use bxp_core.Client.{ClientConnection}
use bxp_core.Quic.{Quic, IsQuic}
use bxp_core.Session.{save, take_stream}
use bxp_core.Stream.{read_on}
use bxp_core.Stream.Transfer.{read_on-preamble, read_on-whole}

module _ {q : Quic} (spec : IsQuic q) where
  take_stream_step :
      (s : ClientConnection q) (req_id : ℕ) (payload : List ℕ) {r : q.RecvStream}
      → (read_on q s.quic_conn).0 ≡ ok (req_id, r)
      → (q.copy_in r).0 ≡ ok payload
      → take_stream q s ≡ (
        ok (req_id, payload),
        record s { quic_conn = q.drop_recv (q.copy_in r).1 (read_on q s.quic_conn).1 },
      )
  unfolding take_stream Client.read_data_stream
  take_stream_step s req_id payload got copied = rw (got, take_stream, save) (rw copied refl)

  -- The next stream that has arrived is read to its end.
  pub take_stream-next :
      (s : ClientConnection q) (req_id : ℕ) (payload : List ℕ) (rest : List (List ℕ))
      → req_id < u32_mod
      → spec.whole s.quic_conn ≡ true
      → spec.incoming s.quic_conn ≡ (to_le_bytes req_id ++ payload) ∷ rest
      → ((take_stream q s).0 ≡ ok (req_id, payload))
        × (spec.incoming (take_stream q s).1.quic_conn ≡ rest)
        × (spec.whole (take_stream q s).1.quic_conn ≡ true)
        × ((take_stream q s).1.control_recv ≡ s.control_recv)
        × ((take_stream q s).1.control_send ≡ s.control_send)
  unfolding take_stream Client.read_data_stream
  take_stream-next s req_id payload rest fits all_clean next =
      let (r, got, bytes, left) = read_on-preamble spec s.quic_conn req_id payload rest fits next in
      let (clean, still) = read_on-whole spec s.quic_conn req_id r all_clean got in
      let copied = spec.copy_in-clean r clean ∙ ap ok bytes in
      rw (take_stream_step s req_id payload got copied) (
        refl,
        spec.drop_recv-keeps (q.copy_in r).1 (read_on q s.quic_conn).1 ∙ left,
        spec.drop_recv-whole (q.copy_in r).1 (read_on q s.quic_conn).1 still,
        refl,
        refl,
      )
