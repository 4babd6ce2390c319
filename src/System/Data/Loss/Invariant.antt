-- ===== src/System/Data/Loss/Invariant.antt =====
-- What holds of the data streams when the connection may be lost.
use bxp_core.Base.{
  ℕ, ◌<◌, ◌≡◌, ◌∙◌, sym, append_assoc, refl, ap, Bool, true, false, ◌⊎◌, inl, inr, List, [], ◌∷◌,
  ◌++◌, Result, ok, err,
}
use bxp_core.Base.Bytes.{u32_mod, to_le_bytes}
use bxp_core.System.Data.{DataParts}
use bxp_core.System.Data.Invariant.{IsDataSound}
use mathlib.Core.List.{Permᴰ}
use bxp_core.Exchange.Streams.{tagged, AllIds}
use bxp_core.Protocol.{Error}
use bxp_core.System.Data.Loss.{Breaking, Kept, LossDataWorld}
use bxp_core.System.Data.Owed.{owed, owed-append, set_out, all_read}

-- The values of the calls that succeeded.
abbrev pub oks : {A : Type 0} → List (Result Error A) → List A
oks [] = []
oks (ok x ∷ xs) = x ∷ oks xs
oks (err e ∷ xs) = oks xs

pub oks-append : {A : Type 0} (xs ys : List (Result Error A)) → oks (xs ++ ys) ≡ oks xs ++ oks ys
oks-append [] ys = refl
oks-append (ok x ∷ xs) ys = ap (λ l. x ∷ l) (oks-append xs ys)
oks-append (err e ∷ xs) ys = oks-append xs ys

pub oks-all_read : (ts : List (ℕ × List ℕ)) → oks (all_read ts) ≡ ts
oks-all_read [] = refl
oks-all_read (t ∷ ts) = ap (λ l. t ∷ l) (oks-all_read ts)

-- The stream that the client finds next, among the ids and payloads of those that had arrived.
pub record NextKept (here : List (ℕ × List ℕ)) (s : List ℕ) (rest : List (List ℕ))
    (whole : List Bool) : Type 0 where
  pub skipped : List (ℕ × List ℕ)
  pub req_id : ℕ
  pub payload : List ℕ
  pub others : List (ℕ × List ℕ)
  pub is_split : here ≡ skipped ++ ((req_id, payload) ∷ others)
  pub is_whole : Bool
  pub more : List Bool
  pub flags : whole ≡ is_whole ∷ more
  pub kept : Kept (tagged others) rest more
  pub bytes : (is_whole ≡ false) ⊎ ((is_whole ≡ true) × (s ≡ to_le_bytes req_id ++ payload))
  pub fits : req_id < u32_mod
  pub ids : AllIds others

pub next_kept :
    (here : List (ℕ × List ℕ)) {before after : List (List ℕ)} {whole : List Bool} {s : List ℕ}
    {rest : List (List ℕ)}
    → AllIds here
    → tagged here ≡ before
    → Kept before after whole
    → after ≡ s ∷ rest
    → NextKept here s rest whole
unfolding tagged
next_kept [] h e (Kept.none) f = absurd (cc f)
next_kept [] h e (Kept.stays k) f = absurd (cc e)
next_kept [] h e (Kept.breaks bytes k) f = absurd (cc e)
next_kept [] h e (Kept.goes k) f = absurd (cc e)
next_kept (t ∷ ts) h e (Kept.none) f = absurd (cc f)
next_kept ((req_id, payload) ∷ ts) {rest} (fits, ids) e (Kept.stays {before} {after} {whole} k) f =
    let tail : tagged ts ≡ before = cc e in
    let behind : after ≡ rest = cc f in
    record {
      skipped = [];
      req_id = req_id;
      payload = payload;
      others = ts;
      is_split = refl;
      is_whole = true;
      more = whole;
      flags = refl;
      kept = rw (tail, ← behind) k;
      bytes = inr (refl, cc (e, f));
      fits = fits;
      ids = ids;
    }
next_kept ((req_id, payload) ∷ ts) {rest} (fits, ids) e
      (Kept.breaks bytes {before} {after} {whole} k) f =
    let tail : tagged ts ≡ before = cc e in
    let behind : after ≡ rest = cc f in
    record {
      skipped = [];
      req_id = req_id;
      payload = payload;
      others = ts;
      is_split = refl;
      is_whole = false;
      more = whole;
      flags = refl;
      kept = rw (tail, ← behind) k;
      bytes = inl refl;
      fits = fits;
      ids = ids;
    }
next_kept ((req_id, payload) ∷ ts) (fits, ids) e (Kept.goes {before} k) f =
    let tail : tagged ts ≡ before = cc e in
    let n = next_kept ts ids tail k f in
    record {
      skipped = (req_id, payload) ∷ n.skipped;
      req_id = n.req_id;
      payload = n.payload;
      others = n.others;
      is_split = ap (λ l. (req_id, payload) ∷ l) n.is_split;
      is_whole = n.is_whole;
      more = n.more;
      flags = n.flags;
      kept = n.kept;
      bytes = n.bytes;
      fits = n.fits;
      ids = n.ids;
    }

module _ (p : DataParts) (breaking : Breaking p.parts.spec) (w : LossDataWorld p.parts.q) where
  -- After the loss: what is owed is what was read, what the client may still read, and what is
  -- missing.
  pub record LostData : Type 0 where
    pub got : List (ℕ × List ℕ)
    pub here : List (ℕ × List ℕ)
    pub missing : List (ℕ × List ℕ)
    pub here_ids : AllIds here
    pub read : oks w.data_world.taken ≡ got
    pub kept :
        Kept
          (tagged here)
          (p.parts.spec.incoming w.data_world.base.client.quic_conn)
          (breaking.intact w.data_world.base.client.quic_conn)
    pub sorted : Permᴰ (owed p.payloads w.data_world.base.asked) (got ++ (here ++ missing))

  pub data IsLossDataSound : Type 0 where
    up_yet : w.is_lost ≡ false → IsDataSound p w.data_world → IsLossDataSound
    is_down : w.is_lost ≡ true → LostData → IsLossDataSound

  -- The streams that are owed for all requests, before the loss.
  pub all_sorted :
      (h : IsDataSound p w.data_world)
      → Permᴰ
          (owed p.payloads w.data_world.base.asked)
          (h.inv.got ++ (h.inv.here ++ (h.inv.flown ++ owed p.payloads h.waiting)))
  all_sorted h =
      let i = h.inv in
      let new = owed p.payloads h.waiting in
      let all : owed p.payloads w.data_world.base.asked
          ≡ owed p.payloads (h.done ++ h.answered) ++ new =
        ap (owed p.payloads) (i.base.asked ∙ sym (append_assoc h.done h.answered h.waiting))
        ∙ owed-append p.payloads (h.done ++ h.answered) h.waiting in
      rw all (set_out i.got i.here i.flown new i.sorted)
