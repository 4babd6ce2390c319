-- ===== src/Frame/Reading.antt =====
-- A reference reader of a control stream, by the bytes alone, and the frame as it reads it.
use bxp_core.Base.{
  ℕ, ◌≤◌, ◌<◌, ◌≡◌, refl, ap, List, ◌++◌, length, take, drop, replicate, ltb, if◌then◌else◌,
  length-append, length-drop, take-length-append, append_assoc, drop-length-append, ltb-eq-false,
  ltb-eq-true, arith,
}
use bxp_core.Base.Bytes.{
  u32_mod, to_le_bytes, from_le_bytes, length-to_le_bytes, from_le_bytes-to_le_bytes,
}
use bxp_core.Frame.{fill_length, frame}

-- What a receiver with a limit finds at the head of its stream: a whole message and what follows
-- it, a header above the limit and what follows the header, or an end inside of a frame.
pub data Next : Type 0 where
  message : (body rest : List ℕ) → Next
  oversized : (len : ℕ) (rest : List ℕ) → Next
  truncated : Next

unfoldable pub next_whole : ℕ → List ℕ → Next
next_whole len bs = if ltb (length bs) len then truncated else message (take len bs) (drop len bs)

unfoldable pub next_body : ℕ → ℕ → List ℕ → Next
next_body limit len bs = if ltb limit len then oversized len bs else next_whole len bs

unfoldable pub next_frame : ℕ → List ℕ → Next
next_frame limit bs =
    if ltb (length bs) 4 then truncated else next_body limit (from_le_bytes (take 4 bs)) (drop 4 bs)

-- The same for a receiver with no limit of its own.
unfoldable pub next_unlimited : List ℕ → Next
next_unlimited bs =
    if ltb (length bs) 4 then truncated else next_whole (from_le_bytes (take 4 bs)) (drop 4 bs)

-- A list of four is its own first four elements.
take-to_le_bytes : (n : ℕ) (bs : List ℕ) → take 4 (to_le_bytes n ++ bs) ≡ to_le_bytes n
unfolding to_le_bytes
take-to_le_bytes n bs = refl

drop-to_le_bytes : (n : ℕ) (bs : List ℕ) → drop 4 (to_le_bytes n ++ bs) ≡ bs
unfolding to_le_bytes
drop-to_le_bytes n bs = refl

-- The header of a stream that begins with a u32, and what follows it.
pub header :
    (n : ℕ) (bs : List ℕ)
    → n < u32_mod
    → (4 ≤ length (to_le_bytes n ++ bs))
      × (from_le_bytes (take 4 (to_le_bytes n ++ bs)) ≡ n)
      × (drop 4 (to_le_bytes n ++ bs) ≡ bs)
header n bs h = (
  omega (arith, length-append {0} (to_le_bytes n) bs, length-to_le_bytes n),
  rw take-to_le_bytes (from_le_bytes-to_le_bytes n h),
  drop-to_le_bytes n bs,
)

next_whole-append :
    (body rest : List ℕ) → next_whole (length body) (body ++ rest) ≡ message body rest
unfolding next_whole
next_whole-append body rest = rw (
  ltb-eq-false (length (body ++ rest)) (length body) (omega (arith, length-append {0} body rest)),
  take-length-append body rest,
  drop-length-append body rest,
)

-- A frame with no limit is read as its payload, whatever follows it.
pub next_unlimited-frame :
    (body rest : List ℕ)
    → length body < u32_mod
    → next_unlimited (frame body ++ rest) ≡ message body rest
unfolding next_unlimited
next_unlimited-frame body rest fits =
    let (long, len, after) = header (length body) (body ++ rest) fits in
    rw
      (
        append_assoc,
        ltb-eq-false (length (to_le_bytes (length body) ++ (body ++ rest))) 4 long,
        len,
        after,
      )
      (next_whole-append body rest)

-- A frame within the limit is read as its payload, whatever follows it.
pub next_frame-frame :
    (limit : ℕ) (body rest : List ℕ)
    → length body ≤ limit
    → length body < u32_mod
    → next_frame limit (frame body ++ rest) ≡ message body rest
unfolding next_frame next_body
next_frame-frame limit body rest h fits =
    let (long, len, after) = header (length body) (body ++ rest) fits in
    rw
      (
        append_assoc,
        ltb-eq-false (length (to_le_bytes (length body) ++ (body ++ rest))) 4 long,
        len,
        after,
        ltb-eq-false limit (length body) h,
      )
      (next_whole-append body rest)

-- A header above the limit is reported, whatever follows it.
pub next_frame-oversized :
    (limit len : ℕ) (rest : List ℕ)
    → limit < len
    → len < u32_mod
    → next_frame limit (to_le_bytes len ++ rest) ≡ oversized len rest
unfolding next_frame next_body
next_frame-oversized limit len rest h fits =
    let (long, got, after) = header len rest fits in
    rw (ltb-eq-false (length (to_le_bytes len ++ rest)) 4 long, got, after, ltb-eq-true limit len h)

-- The buffer of a sender, once its length is filled in, is the frame of the message.
pub fill_length-frame :
    (payload : List ℕ)
    → length payload < u32_mod
    → fill_length (replicate 4 0 ++ payload) ≡ frame payload
unfolding fill_length
fill_length-frame payload h = ap (λ n. to_le_bytes n ++ payload) (omega arith)

-- A message takes at least its header from the stream.
pub next_frame-shrinks :
    (limit : ℕ) (bs body rest : List ℕ)
    → next_frame limit bs ≡ message body rest
    → length rest < length bs
unfolding next_frame next_body next_whole
next_frame-shrinks limit bs body rest h =
    let len = from_le_bytes (take 4 bs) in
    ground (arith, length-drop {0} len (drop 4 bs), length-drop {0} 4 bs)

pub next_unlimited-shrinks :
    (bs body rest : List ℕ) → next_unlimited bs ≡ message body rest → length rest < length bs
unfolding next_unlimited next_whole
next_unlimited-shrinks bs body rest h =
    let len = from_le_bytes (take 4 bs) in
    ground (arith, length-drop {0} len (drop 4 bs), length-drop {0} 4 bs)
