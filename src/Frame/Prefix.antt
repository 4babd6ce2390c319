-- ===== src/Frame/Prefix.antt =====
-- What the reference reader finds in a prefix of a stream is what it finds in the whole stream.
use bxp_core.Base.{
  ℕ, ◌≤◌, ◌<◌, ◌≡◌, ◌∙◌, ap, sym, inl, inr, Bool-cases, List, [], ◌∷◌, ◌++◌, ltb, ltb-eq-false,
  length, take, drop, length-append, take-append, drop-append, arith,
}
use bxp_core.Base.Bytes.{u32_mod, from_le_bytes}
use bxp_core.Frame.{frame}
use bxp_core.Frame.Reading.{
  next_frame-frame, next_unlimited-frame, Next, message, oversized, truncated, next_whole,
  next_body, next_frame, next_unlimited,
}

-- More bytes behind what was found.
abbrev pub extend : Next → List ℕ → Next
extend (message body rest) ys = message body (rest ++ ys)
extend (oversized len rest) ys = oversized len (rest ++ ys)
extend truncated ys = truncated

-- Something was found.
abbrev pub IsFound : Next → Type 0
IsFound truncated = ⊥
IsFound _ = Unit

next_whole-append :
    (len : ℕ) (bs ys : List ℕ)
    → IsFound (next_whole len bs)
    → next_whole len (bs ++ ys) ≡ extend (next_whole len bs) ys
unfolding next_whole
next_whole-append len bs ys h = elim (Bool-cases (ltb (length bs) len)) [
  | inl short ↦ elim (rw short at h) [ ]
  | inr enough ↦ rw (
    enough,
    ltb-eq-false (length (bs ++ ys)) len (ground (arith, length-append {0} bs ys)),
    take-append len bs ys (ground arith),
    drop-append len bs ys (ground arith),
  )
]

next_body-append :
    (limit len : ℕ) (bs ys : List ℕ)
    → IsFound (next_body limit len bs)
    → next_body limit len (bs ++ ys) ≡ extend (next_body limit len bs) ys
unfolding next_body
next_body-append limit len bs ys h = elim (Bool-cases (ltb limit len)) [
  | inl big ↦ rw big
  | inr fits ↦ rw fits (next_whole-append len bs ys (rw fits at h))
]

pub next_frame-append :
    (limit : ℕ) (bs ys : List ℕ)
    → IsFound (next_frame limit bs)
    → next_frame limit (bs ++ ys) ≡ extend (next_frame limit bs) ys
unfolding next_frame
next_frame-append limit bs ys h = elim (Bool-cases (ltb (length bs) 4)) [
  | inl short ↦ elim (rw short at h) [ ]
  | inr enough ↦
      rw
        (
          enough,
          ltb-eq-false (length (bs ++ ys)) 4 (ground (arith, length-append {0} bs ys)),
          take-append 4 bs ys (ground arith),
          drop-append 4 bs ys (ground arith),
        )
        (next_body-append limit (from_le_bytes (take 4 bs)) (drop 4 bs) ys (rw enough at h))
]

pub next_unlimited-append :
    (bs ys : List ℕ)
    → IsFound (next_unlimited bs)
    → next_unlimited (bs ++ ys) ≡ extend (next_unlimited bs) ys
unfolding next_unlimited
next_unlimited-append bs ys h = elim (Bool-cases (ltb (length bs) 4)) [
  | inl short ↦ elim (rw short at h) [ ]
  | inr enough ↦
      rw
        (
          enough,
          ltb-eq-false (length (bs ++ ys)) 4 (ground (arith, length-append {0} bs ys)),
          take-append 4 bs ys (ground arith),
          drop-append 4 bs ys (ground arith),
        )
        (next_whole-append (from_le_bytes (take 4 bs)) (drop 4 bs) ys (rw enough at h))
]

pub extend-IsFound : (n : Next) (ys : List ℕ) → IsFound n → IsFound (extend n ys)
extend-IsFound (message body rest) ys h = tt
extend-IsFound (oversized len rest) ys h = tt
extend-IsFound truncated ys h = h

-- A message found with more bytes behind it was found without them.
pub extend-message :
    (n : Next) (ys : List ℕ) {body rest : List ℕ}
    → extend n ys ≡ message body rest
    → (mid : List ℕ) × (n ≡ message body mid) × (mid ++ ys ≡ rest)
extend-message (message body mid) ys h = (mid, cc, cc)
extend-message (oversized len rest) ys h = cc
extend-message truncated ys h = cc

-- What a reader finds in a part `bs` of a stream that begins with a frame.
pub next_frame-frame_part :
    (limit : ℕ) (bs ys payload rest : List ℕ)
    → length payload ≤ limit
    → length payload < u32_mod
    → bs ++ ys ≡ frame payload ++ rest
    → IsFound (next_frame limit bs)
    → (mid : List ℕ) × (next_frame limit bs ≡ message payload mid) × (mid ++ ys ≡ rest)
next_frame-frame_part limit bs ys payload rest small fits e h =
    extend-message (next_frame limit bs) ys (
      sym (next_frame-append limit bs ys h)
      ∙ ap (next_frame limit) e
      ∙ next_frame-frame limit payload rest small fits)

pub next_unlimited-frame_part :
    (bs ys payload rest : List ℕ)
    → length payload < u32_mod
    → bs ++ ys ≡ frame payload ++ rest
    → IsFound (next_unlimited bs)
    → (mid : List ℕ) × (next_unlimited bs ≡ message payload mid) × (mid ++ ys ≡ rest)
next_unlimited-frame_part bs ys payload rest fits e h = extend-message (next_unlimited bs) ys (
    sym (next_unlimited-append bs ys h)
    ∙ ap next_unlimited e
    ∙ next_unlimited-frame payload rest fits)

-- In a part of an empty stream nothing is found.
pub next_frame-nil : (limit : ℕ) (bs ys : List ℕ) → bs ++ ys ≡ [] → ¬ IsFound (next_frame limit bs)
unfolding next_frame
next_frame-nil limit [] ys e h = h
next_frame-nil limit (b ∷ bs) ys e h = cc

pub next_unlimited-nil : (bs ys : List ℕ) → bs ++ ys ≡ [] → ¬ IsFound (next_unlimited bs)
unfolding next_unlimited
next_unlimited-nil [] ys e h = h
next_unlimited-nil (b ∷ bs) ys e h = cc
