-- ===== src/System/Data/Loss/Broken.antt =====
-- The next data stream of a connection that breaks some of them off.
use bxp_core.Base.{
  ℕ, ◌<◌, ◌≡◌, refl, ap, ◌∙◌, Bool, true, false, Result-cases, inl, inr, List, ◌∷◌, ◌++◌, ok, err,
}
use bxp_core.Base.Bytes.{u32_mod, to_le_bytes, from_le_bytes}
use bxp_core.Client
use bxp_core.Client.{ClientConnection}
use bxp_core.Protocol.{Error, quic, io}
use bxp_core.Quic.{Quic, IsQuic}
use bxp_core.Session.{save, take_stream}
use bxp_core.Stream.{read_on}
use bxp_core.System.Data.Loss.{Breaking}
use bxp_core.Stream.Transfer.{read_on_ok, read_on_err, read_on-preamble}

module _ {q : Quic} {spec : IsQuic q} (breaking : Breaking spec) where
  -- The call takes the next stream, and the others stay.
  pub record Takes (s : ClientConnection q) (rest : List (List ℕ)) (more : List Bool) : Type 0 where
    pub left : spec.incoming (take_stream q s).1.quic_conn ≡ rest
    pub left_intact : breaking.intact (take_stream q s).1.quic_conn ≡ more

  copy_step :
      (s : ClientConnection q) (req_id : ℕ) {r : q.RecvStream} {rest : List (List ℕ)}
      {more : List Bool}
      → (read_on q s.quic_conn).0 ≡ ok (req_id, r)
      → spec.incoming (read_on q s.quic_conn).1 ≡ rest
      → breaking.intact (read_on q s.quic_conn).1 ≡ more
      → Takes s rest more
  unfolding take_stream Client.read_data_stream
  copy_step s req_id {r} got left left_intact = elim (Result-cases (q.copy_in r).0) [
    | inl (bytes, copied) ↦ record {
      left =
          rw (got, take_stream, save)
            (rw copied (spec.drop_recv-keeps (q.copy_in r).1 (read_on q s.quic_conn).1 ∙ left));
      left_intact =
          rw (got, take_stream, save)
            (rw copied
              (breaking.drop_recv-intact (q.copy_in r).1 (read_on q s.quic_conn).1 ∙ left_intact));
    }
    | inr (e, failed) ↦ record {
      left =
          rw (got, take_stream, save)
            (rw failed (spec.drop_recv-keeps (q.copy_in r).1 (read_on q s.quic_conn).1 ∙ left));
      left_intact =
          rw (got, take_stream, save)
            (rw failed
              (breaking.drop_recv-intact (q.copy_in r).1 (read_on q s.quic_conn).1 ∙ left_intact));
    }
  ]

  -- A stream that goes on to a clean end is read whole.
  pub take_intact :
      (s : ClientConnection q) (req_id : ℕ) (payload : List ℕ) (rest : List (List ℕ))
      (more : List Bool)
      → req_id < u32_mod
      → spec.incoming s.quic_conn ≡ (to_le_bytes req_id ++ payload) ∷ rest
      → breaking.intact s.quic_conn ≡ true ∷ more
      → ((take_stream q s).0 ≡ ok (req_id, payload)) × Takes s rest more
  unfolding take_stream Client.read_data_stream
  take_intact s req_id payload rest more fits next whole =
      let c = s.quic_conn in
      let (r, got, bytes, left) = read_on-preamble spec c req_id payload rest fits next in
      let (r0, accepted, _, _) = spec.accept_uni-next c (to_le_bytes req_id ++ payload) rest next in
      let (clean0, others) = breaking.accept_uni-intact c r0 true more whole accepted in
      elim (Result-cases (q.read_exact 4 r0).0) [
        | inl (buf, filled) ↦
            let step = read_on_ok spec c accepted filled in
            let same : (q.read_exact 4 r0).1 ≡ r = cc (step, got) in
            let clean = rw same at (spec.read_exact-clean 4 r0 buf filled ∙ clean0) in
            let copied = spec.copy_in-clean r clean ∙ ap ok bytes in
            (
              rw (got, take_stream, save) (rw copied refl),
              copy_step s req_id got left (ap (λ x. breaking.intact x.1) step ∙ others),
            )
        | inr (e, failed) ↦ absurd (cc (read_on_err spec c accepted failed, got))
      ]

  -- One that does not gives an error, and never a part as if it were the whole.
  pub take_broken :
      (s : ClientConnection q) (bs : List ℕ) (rest : List (List ℕ)) (more : List Bool)
      → spec.incoming s.quic_conn ≡ bs ∷ rest
      → breaking.intact s.quic_conn ≡ false ∷ more
      → ((e : Error) × ((take_stream q s).0 ≡ err e)) × Takes s rest more
  unfolding take_stream Client.read_data_stream
  take_broken s bs rest more next torn =
      let c = s.quic_conn in
      let (r0, accepted, _, left) = spec.accept_uni-next c bs rest next in
      let (clean0, others) = breaking.accept_uni-intact c r0 false more torn accepted in
      elim (Result-cases (q.read_exact 4 r0).0) [
        | inl (buf, filled) ↦
            let step = read_on_ok spec c accepted filled in
            let got = ap (λ x. x.0) step in
            let (e, failed) =
              breaking.copy_in-broken (q.read_exact 4 r0).1
                (spec.read_exact-clean 4 r0 buf filled ∙ clean0) in
            (
              (io e, rw (got, take_stream, save) (rw failed refl)),
              copy_step s (from_le_bytes buf) got (ap (λ x. spec.incoming x.1) step ∙ left)
                  (ap (λ x. breaking.intact x.1) step ∙ others),
            )
        | inr (e, failed) ↦
            let step = read_on_err spec c accepted failed in
            (
              (quic e, rw step refl),
              record {
                left =
                    rw step (spec.drop_recv-keeps (q.read_exact 4 r0).1 (q.accept_uni c).1 ∙ left);
                left_intact =
                    rw step
                      (breaking.drop_recv-intact (q.read_exact 4 r0).1 (q.accept_uni c).1 ∙ others);
              },
            )
      ]
