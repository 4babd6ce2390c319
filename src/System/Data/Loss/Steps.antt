-- ===== src/System/Data/Loss/Steps.antt =====
-- What the client has read and may still read of the data streams, before and after the loss.
use bxp_core.Base.{
  ℕ, ◌≡◌, refl, ap, ◌∙◌, sym, inl, inr, List, [], ◌∷◌, ◌++◌, append-nil, append_assoc, ok, err,
}
use bxp_core.Client.Receive.{receive_response_passive}
use bxp_core.Client.Send.{send_request_keeps_conn}
use bxp_core.Protocol.{BxpRequest}
use bxp_core.Client.{ClientConnection}
use bxp_core.Server.{ServerConnection}
use bxp_core.System.{World}
use bxp_core.System.Data.{DataParts, took}
use bxp_core.System.Data.Invariant.{IsDataGood, IsDataSound}
use bxp_core.System.Data.Loss.{
  Breaking, Kept, LossDataWorld, LossDataStep, LossDataReach, lost, with_base,
}
use bxp_core.System.Data.Loss.Broken.{take_intact, take_broken}
use bxp_core.System.Data.Loss.Invariant.{
  LostData, IsLossDataSound, all_sorted, oks, oks-append, oks-all_read, next_kept,
}
use bxp_core.System.Data.Owed.{owed, owed-append, set_out}
use bxp_core.System.Data.Steps.{DataWork-IsDataSound}
use bxp_core.System.Data.Control.{send-IsDataSound}
use bxp_core.System.Data.{DataStep}
use mathlib.Core.List.Permᴰ
use mathlib.Core.List.{Permᴰ}

-- One of the streams that had arrived leaves them: it is read, or it is gone.
module _ (got skipped others missing : List (ℕ × List ℕ)) (t : ℕ × List ℕ) where
  out : Permᴰ (skipped ++ (t ∷ others)) (t ∷ (others ++ skipped))
  out =
      Permᴰ.trans (Permᴰ.middle t skipped others)
        (Permᴰ.cons refl (Permᴰ.append_comm skipped others))

  sorted_read :
      Permᴰ
        (got ++ ((skipped ++ (t ∷ others)) ++ missing))
        ((got ++ (t ∷ [])) ++ (others ++ (skipped ++ missing)))
  sorted_read =
      rw
        (
          append_assoc got (t ∷ []) (others ++ (skipped ++ missing)),
          ← append_assoc others skipped missing,
        )
        (Permᴰ.append_left got (Permᴰ.append_right missing out))

  sorted_gone :
      Permᴰ
        (got ++ ((skipped ++ (t ∷ others)) ++ missing))
        (got ++ (others ++ (skipped ++ (t ∷ missing))))
  sorted_gone = rw (← append_assoc others skipped (t ∷ missing)) (
      Permᴰ.append_left got (
        Permᴰ.trans (Permᴰ.append_right missing out)
          (Permᴰ.symm (Permᴰ.middle t (others ++ skipped) missing))))

module _ (p : DataParts) (breaking : Breaking p.parts.spec) (w : LossDataWorld p.parts.q) where
  pub lose_data :
      (client : ClientConnection p.parts.q) (server : ServerConnection p.parts.q)
      → Kept
          (p.parts.spec.incoming w.data_world.base.client.quic_conn)
          (p.parts.spec.incoming client.quic_conn)
          (breaking.intact client.quic_conn)
      → IsDataSound p w.data_world
      → LostData p breaking (lost p w client server)
  lose_data client server k h =
      let i = h.inv in
      record {
        got = i.got;
        here = i.here;
        missing = i.flown ++ owed p.payloads h.waiting;
        here_ids = i.here_ids;
        read = ap oks i.taken ∙ oks-all_read i.got;
        kept = rw i.incoming at k;
        sorted = all_sorted p breaking w h;
      }

  -- A call that takes no data stream.
  pub other_data :
      (t : World p.parts.q) (rs : List BxpRequest)
      → t.asked ≡ w.data_world.base.asked ++ rs
      → t.client.quic_conn ≡ w.data_world.base.client.quic_conn
      → LostData p breaking w
      → LostData p breaking (with_base p w t)
  other_data t rs asked conn k = record {
    got = k.got;
    here = k.here;
    missing = k.missing ++ owed p.payloads rs;
    here_ids = k.here_ids;
    read = k.read;
    kept = rw conn k.kept;
    sorted =
        rw (asked, owed-append p.payloads w.data_world.base.asked rs)
          (set_out k.got k.here k.missing (owed p.payloads rs) k.sorted);
  }

  pub take_data :
      (s : List ℕ) (rest : List (List ℕ))
      → p.parts.spec.incoming w.data_world.base.client.quic_conn ≡ s ∷ rest
      → LostData p breaking w
      → LostData p breaking (record w { data_world = took p w.data_world })
  take_data s rest next k =
      let client = w.data_world.base.client in
      let n = next_kept k.here k.here_ids refl k.kept next in
      let t : ℕ × List ℕ = (n.req_id, n.payload) in
      let here = rw n.is_split at k.sorted in
      elim n.bytes [
        | inl torn ↦
            let ((e, failed), takes) =
              take_broken breaking client s rest n.more next
                (n.flags ∙ ap (λ b. b ∷ n.more) torn) in
            record {
              got = k.got;
              here = n.others;
              missing = n.skipped ++ (t ∷ k.missing);
              here_ids = n.ids;
              read =
                  ap (λ x. oks (w.data_world.taken ++ (x ∷ []))) failed
                  ∙ oks-append w.data_world.taken (err e ∷ [])
                  ∙ append-nil (oks w.data_world.taken)
                  ∙ k.read;
              kept = rw (takes.left, takes.left_intact) n.kept;
              sorted = Permᴰ.trans here (sorted_gone k.got n.skipped n.others k.missing t);
            }
        | inr (whole, bytes) ↦
            let (got, takes) =
              take_intact breaking client n.req_id n.payload rest n.more n.fits
                (next ∙ ap (λ x. x ∷ rest) bytes) (n.flags ∙ ap (λ b. b ∷ n.more) whole) in
            record {
              got = k.got ++ (t ∷ []);
              here = n.others;
              missing = n.skipped ++ k.missing;
              here_ids = n.ids;
              read =
                  ap (λ x. oks (w.data_world.taken ++ (x ∷ []))) got
                  ∙ oks-append w.data_world.taken (ok t ∷ [])
                  ∙ ap (λ l. l ++ (t ∷ [])) k.read;
              kept = rw (takes.left, takes.left_intact) n.kept;
              sorted = Permᴰ.trans here (sorted_read k.got n.skipped n.others k.missing t);
            }
      ]

module _ (p : DataParts) (good : IsDataGood p) (breaking : Breaking p.parts.spec)
    (w : LossDataWorld p.parts.q) where
  pub data_step_lem :
      {t : LossDataWorld p.parts.q}
      → LossDataStep p breaking w t
      → IsLossDataSound p breaking w
      → IsLossDataSound p breaking t
  data_step_lem (LossDataStep.up (DataStep.work m) up) (IsLossDataSound.up_yet _ h) =
      IsLossDataSound.up_yet up (DataWork-IsDataSound p good w.data_world m h)
  data_step_lem (LossDataStep.up (DataStep.send r fits) up) (IsLossDataSound.up_yet _ h) =
      IsLossDataSound.up_yet up (send-IsDataSound p good w.data_world r fits h)
  data_step_lem (LossDataStep.lose client server up k) (IsLossDataSound.up_yet _ h) =
      IsLossDataSound.is_down refl (lose_data p breaking w client server k h)
  data_step_lem (LossDataStep.server_late server serving down) (IsLossDataSound.is_down _ k) =
      IsLossDataSound.is_down down
        (other_data p breaking w _ [] (sym (append-nil w.data_world.base.asked)) refl k)
  data_step_lem (LossDataStep.read_late down) (IsLossDataSound.is_down _ k) =
      IsLossDataSound.is_down down (
        other_data p breaking w _ [] (sym (append-nil w.data_world.base.asked))
          (receive_response_passive p.parts.q p.parts.c w.data_world.base.client).0 k)
  data_step_lem (LossDataStep.send_late r down) (IsLossDataSound.is_down _ k) =
      IsLossDataSound.is_down down (
        other_data p breaking w _ (r ∷ []) refl
          (send_request_keeps_conn p.parts.q p.parts.c r w.data_world.base.client) k)
  data_step_lem (LossDataStep.take_late s rest down next) (IsLossDataSound.is_down _ k) =
      IsLossDataSound.is_down down (take_data p breaking w s rest next k)
  data_step_lem (LossDataStep.up m up) (IsLossDataSound.is_down down _) = absurd (cc (up, down))
  data_step_lem (LossDataStep.lose client server up k) (IsLossDataSound.is_down down _) =
      absurd (cc (up, down))
  data_step_lem (LossDataStep.server_late server serving down) (IsLossDataSound.up_yet up _) =
      absurd (cc (up, down))
  data_step_lem (LossDataStep.read_late down) (IsLossDataSound.up_yet up _) = absurd (cc (up, down))
  data_step_lem (LossDataStep.send_late r down) (IsLossDataSound.up_yet up _) =
      absurd (cc (up, down))
  data_step_lem (LossDataStep.take_late s rest down next) (IsLossDataSound.up_yet up _) =
      absurd (cc (up, down))

module _ (p : DataParts) (good : IsDataGood p) (breaking : Breaking p.parts.spec) where
  pub LossDataReach-IsLossDataSound :
      {w t : LossDataWorld p.parts.q}
      → IsLossDataSound p breaking w
      → LossDataReach p breaking w t
      → IsLossDataSound p breaking t
  LossDataReach-IsLossDataSound k LossDataReach.start = k
  LossDataReach-IsLossDataSound k (LossDataReach.later {t} r m) =
      data_step_lem p good breaking t m (LossDataReach-IsLossDataSound k r)
