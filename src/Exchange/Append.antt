-- ===== src/Exchange/Append.antt =====
-- The frames of a longer list of requests, and the responses that are owed for it.
use bxp_core.Base.{◌≡◌, refl, ap, ◌∙◌, sym, List, [], ◌∷◌, ◌++◌, append_assoc, ok}
use bxp_core.Capnp.{Capnp, IsCapnp}
use bxp_core.Exchange.Request.{request_payload}
use bxp_core.Exchange.Response.{response_payload}
use bxp_core.Exchange.Script.{reply, request_frames, reply_frames, AllServable, replies}
use bxp_core.Frame.{frame}
use bxp_core.Protocol.{BxpRequest, BxpStatus}

module _ {c : Capnp} (codec : IsCapnp c) where
  pub request_frames-append :
      (xs ys : List BxpRequest)
      → request_frames codec (xs ++ ys) ≡ request_frames codec xs ++ request_frames codec ys
  unfolding request_frames
  request_frames-append [] ys = refl
  request_frames-append (r ∷ xs) ys =
      ap (λ bs. frame (request_payload codec r) ++ bs) (request_frames-append xs ys)
      ∙ sym (
          append_assoc {0} (frame (request_payload codec r)) (request_frames codec xs)
            (request_frames codec ys))

  pub reply_frames-append :
      (status : BxpRequest → BxpStatus) (xs ys : List BxpRequest)
      → reply_frames codec status (xs ++ ys)
        ≡ reply_frames codec status xs ++ reply_frames codec status ys
  unfolding reply_frames
  reply_frames-append status [] ys = refl
  reply_frames-append status (r ∷ xs) ys =
      ap (λ bs. frame (response_payload codec (reply status r)) ++ bs)
        (reply_frames-append status xs ys)
      ∙ sym (
          append_assoc {0} (frame (response_payload codec (reply status r)))
            (reply_frames codec status xs) (reply_frames codec status ys))

  pub AllServable-append :
      (status : BxpRequest → BxpStatus) (xs ys : List BxpRequest)
      → AllServable codec status xs
      → AllServable codec status ys
      → AllServable codec status (xs ++ ys)
  AllServable-append status [] ys h k = k
  AllServable-append status (r ∷ xs) ys (sendable, replied, more) k =
      (sendable, replied, AllServable-append status xs ys more k)

pub replies-append :
    (status : BxpRequest → BxpStatus) (xs ys : List BxpRequest)
    → replies status (xs ++ ys) ≡ replies status xs ++ replies status ys
replies-append status [] ys = refl
replies-append status (r ∷ xs) ys = ap (λ l. ok (reply status r) ∷ l) (replies-append status xs ys)
