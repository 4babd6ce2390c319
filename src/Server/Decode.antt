-- ===== src/Server/Decode.antt =====
-- Which messages `receive_request` of src/server.rs accepts.
use bxp_core.Base.{◌≡◌, ap, sym, ◌∙◌, ◌↔◌, List, Result, ok, map_err, map_err-ok, and_then-ok, ℕ}
use bxp_core.Capnp.{Capnp}
use bxp_core.Frame.Reading.{Next, message, oversized, truncated, next_frame}
use bxp_core.Protocol.{
  Action, BxpAction, BxpRequest, Error, capnp, invalid_action, action_into, action_try_from,
}
use bxp_core.Protocol.Conversions.{action_round_trip}
use bxp_core.Quic.{Quic, IsQuic}
use bxp_core.Server.{ServerConnection, max_control_msg, decode_request, receive_request}
use bxp_core.Server.Receive.{Receives, receive_request-Receives}

-- The message `body` parses as Cap'n Proto with a request at its root, whose action is one of the
-- schema and whose URI is text in UTF-8, and `r` is made of its three fields.
pub record Parses (c : Capnp) (body : List ℕ) (r : BxpRequest) : Type 0 where
  pub reader : c.MessageReader
  pub root : c.RequestReader
  pub text : c.Text
  pub read : c.read_message body ≡ ok reader
  pub rooted : c.get_request_root reader ≡ ok root
  pub id : c.get_request_id root ≡ r.req_id
  pub known : c.get_action root ≡ ok (action_into r.action)
  pub has_text : c.get_resource_uri root ≡ ok text
  pub decoded : c.to_string text ≡ ok r.uri

-- Of the schema's actions each comes from exactly the action that it converts to.
action_try_from-into : (a : Action) {b : BxpAction} → action_try_from a ≡ ok b → a ≡ action_into b
action_try_from-into a {b} h = let (d, e, same) = action_round_trip.1 a in cc (e, h, same)

module _ (c : Capnp) where
  decode_sound : (body : List ℕ) (r : BxpRequest) → decode_request c body ≡ ok r → Parses c body r
  unfolding decode_request
  decode_sound body r e =
      let (reader, r₁, e₁) = and_then-ok (map_err capnp (c.read_message body)) _ e in
      let (root, r₂, e₂) = and_then-ok (map_err capnp (c.get_request_root reader)) _ e₁ in
      let (a, r₃, e₃) = and_then-ok (map_err (λ _. invalid_action) (c.get_action root)) _ e₂ in
      let (action, r₄, e₄) = and_then-ok (action_try_from a) _ e₃ in
      let (text, r₅, e₅) = and_then-ok (map_err capnp (c.get_resource_uri root)) _ e₄ in
      let (uri, r₆, e₆) = and_then-ok (map_err capnp (c.to_string text)) _ e₅ in
      let same : record { req_id = c.get_request_id root; action = action; uri = uri } ≡ r = cc in
      record {
        reader = reader;
        root = root;
        text = text;
        read = map_err-ok capnp (c.read_message body) r₁;
        rooted = map_err-ok capnp (c.get_request_root reader) r₂;
        id = ap (λ x. x.req_id) same;
        known =
            map_err-ok (λ _. invalid_action) (c.get_action root) r₃
            ∙ ap ok (action_try_from-into a r₄ ∙ ap (λ x. action_into x.action) same);
        has_text = map_err-ok capnp (c.get_resource_uri root) r₅;
        decoded = map_err-ok capnp (c.to_string text) r₆ ∙ ap (λ x. ok x.uri) same;
      }

  decode_complete :
      (body : List ℕ) (r : BxpRequest) → Parses c body r → decode_request c body ≡ ok r
  unfolding decode_request
  decode_complete body r p = rw p.read (
      rw p.rooted (
        rw p.known (
          rw (action_round_trip.0 r.action).0 (
            rw p.has_text (
              rw p.decoded
                (ap (λ i. ok (record { req_id = i; action = r.action; uri = r.uri })) p.id))))))

module _ {q : Quic} (spec : IsQuic q) (c : Capnp) where
  -- What the next frame is if a request is received: a whole message within the limit, which
  -- parses to that request.
  abbrev pub IsAccepted : Next → BxpRequest → Type 0
  IsAccepted (message body rest) r = Parses c body r
  IsAccepted _ r = ⊥

  accepted :
      (found : Next) (r : BxpRequest) {res : Result Error BxpRequest} (t : ServerConnection q)
      → Receives spec c found res t
      → (res ≡ ok r) ↔ IsAccepted found r
  accepted (message body rest) r t (same, _) =
      (λ e. decode_sound c body r (sym same ∙ e), λ p. same ∙ decode_complete c body r p)
  accepted (oversized len rest) r t (failed, _) = (λ e. cc, λ x. elim x [ ])
  accepted truncated r t (k, failed, _) = (λ e. cc, λ x. elim x [ ])

  -- `receive_request` returns a request exactly if the control stream begins with a whole frame of
  -- at most 1 MB, whose message parses as Cap'n Proto with a request at its root, and this has the
  -- returned id, action and URI, the action one of the schema and the URI text in UTF-8.
  pub receive_request-ok_iff :
      (s : ServerConnection q) (r : BxpRequest)
      → ((receive_request q c s).0 ≡ ok r)
        ↔ IsAccepted (next_frame max_control_msg (spec.pending s.control_recv)) r
  receive_request-ok_iff s r =
      accepted (next_frame max_control_msg (spec.pending s.control_recv)) r _
        (receive_request-Receives spec c s)
