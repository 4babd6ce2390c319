-- ===== src/System/Data/Owed.antt =====
-- The data streams that are owed for requests.
use bxp_core.Base.{
  ℕ, ◌<◌, ◌≡◌, refl, ap, ◌∙◌, sym, List, [], ◌∷◌, ◌++◌, append-nil, append_assoc, Result, ok,
}
use bxp_core.Base.Bytes.{u32_mod, to_le_bytes}
use bxp_core.Exchange.Streams.{tagged, AllIds}
use bxp_core.Protocol.{BxpRequest, Error}
use mathlib.Core.List.Permᴰ
use mathlib.Core.List.{Permᴰ}

-- Payloads under the id of their request.
abbrev pub under : ℕ → List (List ℕ) → List (ℕ × List ℕ)
under req_id [] = []
under req_id (payload ∷ payloads) = (req_id, payload) ∷ under req_id payloads

abbrev pub owed : (BxpRequest → List (List ℕ)) → List BxpRequest → List (ℕ × List ℕ)
owed payloads [] = []
owed payloads (r ∷ rs) = under r.req_id (payloads r) ++ owed payloads rs

-- Reading them without an error.
abbrev pub all_read : List (ℕ × List ℕ) → List (Result Error (ℕ × List ℕ))
all_read [] = []
all_read (t ∷ ts) = ok t ∷ all_read ts

pub all_read-append : (xs ys : List (ℕ × List ℕ)) → all_read (xs ++ ys) ≡ all_read xs ++ all_read ys
all_read-append [] ys = refl
all_read-append (t ∷ xs) ys = ap (λ l. ok t ∷ l) (all_read-append xs ys)

pub owed-append :
    (payloads : BxpRequest → List (List ℕ)) (xs ys : List BxpRequest)
    → owed payloads (xs ++ ys) ≡ owed payloads xs ++ owed payloads ys
owed-append payloads [] ys = refl
owed-append payloads (r ∷ xs) ys =
    ap (λ l. under r.req_id (payloads r) ++ l) (owed-append payloads xs ys)
    ∙ sym (append_assoc (under r.req_id (payloads r)) (owed payloads xs) (owed payloads ys))

pub tagged-append : (xs ys : List (ℕ × List ℕ)) → tagged (xs ++ ys) ≡ tagged xs ++ tagged ys
unfolding tagged
tagged-append [] ys = refl
tagged-append ((req_id, payload) ∷ xs) ys =
    ap (λ l. (to_le_bytes req_id ++ payload) ∷ l) (tagged-append xs ys)

pub tagged_nil : (ts : List (ℕ × List ℕ)) → [] ≡ tagged ts → ts ≡ []
unfolding tagged
tagged_nil [] e = refl
tagged_nil (t ∷ ts) e = absurd (cc e)

pub under-AllIds :
    (req_id : ℕ) (payloads : List (List ℕ)) → req_id < u32_mod → AllIds (under req_id payloads)
under-AllIds req_id [] fits = tt
under-AllIds req_id (payload ∷ payloads) fits = (fits, under-AllIds req_id payloads fits)

pub AllIds-append : (xs ys : List (ℕ × List ℕ)) → AllIds xs → AllIds ys → AllIds (xs ++ ys)
AllIds-append [] ys h k = k
AllIds-append (t ∷ xs) ys (fits, more) k = (fits, AllIds-append xs ys more k)

-- Where one of several data streams stands among their ids and payloads.
pub record Picked (ts : List (ℕ × List ℕ)) (xs : List (List ℕ)) (s : List ℕ) (ys : List (List ℕ))
    : Type 0 where
  pub before : List (ℕ × List ℕ)
  pub req_id : ℕ
  pub payload : List ℕ
  pub after : List (ℕ × List ℕ)
  pub is_split : ts ≡ before ++ ((req_id, payload) ∷ after)
  pub head : xs ≡ tagged before
  pub this : s ≡ to_le_bytes req_id ++ payload
  pub rest : ys ≡ tagged after
  pub fits : req_id < u32_mod
  pub others : AllIds (before ++ after)

pub pick :
    (ts : List (ℕ × List ℕ)) (xs : List (List ℕ)) (s : List ℕ) (ys : List (List ℕ))
    → AllIds ts
    → tagged ts ≡ xs ++ (s ∷ ys)
    → Picked ts xs s ys
unfolding tagged
pick [] [] s ys h e = absurd (cc e)
pick [] (x ∷ xs) s ys h e = absurd (cc e)
pick ((req_id, payload) ∷ ts) [] s ys (fits, more) e = record {
  before = [];
  req_id = req_id;
  payload = payload;
  after = ts;
  is_split = refl;
  head = refl;
  this = cc e;
  rest = cc e;
  fits = fits;
  others = more;
}
pick ((req_id, payload) ∷ ts) (x ∷ xs) s ys (fits, more) e =
    let later : tagged ts ≡ xs ++ (s ∷ ys) = cc e in
    let p = pick ts xs s ys more later in
    record {
      before = (req_id, payload) ∷ p.before;
      req_id = p.req_id;
      payload = p.payload;
      after = p.after;
      is_split = ap (λ l. (req_id, payload) ∷ l) p.is_split;
      head = cc (e, p.head);
      this = p.this;
      rest = p.rest;
      fits = p.fits;
      others = (fits, p.others);
    }

-- How the streams that are owed (`os`) stay sorted into those read, arrived and on their way, when
-- some set out, one arrives, and one is read.
module _ (got here flown : List (ℕ × List ℕ)) where
  pub set_out :
      {os : List (ℕ × List ℕ)} (new : List (ℕ × List ℕ))
      → Permᴰ os (got ++ (here ++ flown))
      → Permᴰ (os ++ new) (got ++ (here ++ (flown ++ new)))
  set_out new h =
      let same : (got ++ (here ++ flown)) ++ new ≡ got ++ (here ++ (flown ++ new)) =
        append_assoc got (here ++ flown) new ∙ ap (λ l. got ++ l) (append_assoc here flown new) in
      rw (← same) (Permᴰ.append_right new h)

  pub arrives :
      {os : List (ℕ × List ℕ)} (before : List (ℕ × List ℕ)) (t : ℕ × List ℕ)
      (after : List (ℕ × List ℕ))
      → flown ≡ before ++ (t ∷ after)
      → Permᴰ os (got ++ (here ++ flown))
      → Permᴰ os (got ++ ((here ++ (t ∷ [])) ++ (before ++ after)))
  arrives before t after e h = rw (append_assoc here (t ∷ []) (before ++ after)) (
      Permᴰ.trans (rw e at h)
        (Permᴰ.append_left got (Permᴰ.append_left here (Permᴰ.middle t before after))))

  pub is_read :
      {os : List (ℕ × List ℕ)} (t : ℕ × List ℕ) (rest : List (ℕ × List ℕ))
      → here ≡ t ∷ rest
      → Permᴰ os (got ++ (here ++ flown))
      → Permᴰ os ((got ++ (t ∷ [])) ++ (rest ++ flown))
  is_read t rest e h = rw (append_assoc got (t ∷ []) (rest ++ flown)) (rw e at h)

pub owed-serve :
    (payloads : BxpRequest → List (List ℕ)) (done answered : List BxpRequest) (r : BxpRequest)
    → owed payloads (done ++ (answered ++ (r ∷ [])))
      ≡ owed payloads (done ++ answered) ++ under r.req_id (payloads r)
owed-serve payloads done answered r =
    ap (owed payloads) (sym (append_assoc done answered (r ∷ [])))
    ∙ owed-append payloads (done ++ answered) (r ∷ [])
    ∙ ap (λ l. owed payloads (done ++ answered) ++ l) (append-nil (under r.req_id (payloads r)))
