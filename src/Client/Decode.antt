-- ===== src/Client/Decode.antt =====
-- Which messages `receive_response` of src/client.rs accepts.
use bxp_core.Base.{◌≡◌, ap, sym, ◌∙◌, ◌↔◌, List, Result, ok, map_err, map_err-ok, and_then-ok, ℕ}
use bxp_core.Capnp.{Capnp}
use bxp_core.Client.{ClientConnection, decode_response, receive_response}
use bxp_core.Client.Receive.{Receives, receive_response-Receives}
use bxp_core.Frame.Reading.{Next, message, oversized, truncated, next_unlimited}
use bxp_core.Protocol.{
  BxpStatus, BxpResponse, Error, StatusCode, capnp, unknown_status_code, status_into,
  status_try_from,
}
use bxp_core.Protocol.Conversions.{status_round_trip}
use bxp_core.Quic.{Quic, IsQuic}

-- The message `body` parses as Cap'n Proto with a response at its root, whose status is one of the
-- schema, and `r` is made of its two fields.
pub record ParsesResponse (c : Capnp) (body : List ℕ) (r : BxpResponse) : Type 0 where
  pub reader : c.MessageReader
  pub root : c.ResponseReader
  pub read : c.read_message body ≡ ok reader
  pub rooted : c.get_response_root reader ≡ ok root
  pub id : c.get_response_id root ≡ r.req_id
  pub known : c.get_status_code root ≡ ok (status_into r.status)

-- Of the schema's statuses each comes from exactly the status that it converts to.
status_try_from-into :
    (a : StatusCode) {b : BxpStatus} → status_try_from a ≡ ok b → a ≡ status_into b
status_try_from-into a {b} h = let (d, e, same) = status_round_trip.1 a in cc (e, h, same)

module _ (c : Capnp) where
  response_sound :
      (body : List ℕ) (r : BxpResponse) → decode_response c body ≡ ok r → ParsesResponse c body r
  unfolding decode_response
  response_sound body r e =
      let (reader, r₁, e₁) = and_then-ok (map_err capnp (c.read_message body)) _ e in
      let (root, r₂, e₂) = and_then-ok (map_err capnp (c.get_response_root reader)) _ e₁ in
      let (a, r₃, e₃) =
        and_then-ok (map_err (λ _. unknown_status_code) (c.get_status_code root)) _ e₂ in
      let (status, r₄, e₄) = and_then-ok (status_try_from a) _ e₃ in
      let same : record { req_id = c.get_response_id root; status = status } ≡ r = cc in
      record {
        reader = reader;
        root = root;
        read = map_err-ok capnp (c.read_message body) r₁;
        rooted = map_err-ok capnp (c.get_response_root reader) r₂;
        id = ap (λ x. x.req_id) same;
        known =
            map_err-ok (λ _. unknown_status_code) (c.get_status_code root) r₃
            ∙ ap ok (status_try_from-into a r₄ ∙ ap (λ x. status_into x.status) same);
      }

  response_complete :
      (body : List ℕ) (r : BxpResponse) → ParsesResponse c body r → decode_response c body ≡ ok r
  unfolding decode_response
  response_complete body r p = rw p.read (
      rw p.rooted (
        rw p.known (
          rw (status_round_trip.0 r.status).0
            (ap (λ i. ok (record { req_id = i; status = r.status })) p.id))))

module _ {q : Quic} (spec : IsQuic q) (c : Capnp) where
  -- What the next frame is if a response is received: a whole message, of any length, which parses
  -- to that response.
  abbrev pub IsUnderstood : Next → BxpResponse → Type 0
  IsUnderstood (message body rest) r = ParsesResponse c body r
  IsUnderstood _ r = ⊥

  understood :
      (found : Next) (r : BxpResponse) {res : Result Error BxpResponse} (t : ClientConnection q)
      → Receives spec c found res t
      → (res ≡ ok r) ↔ IsUnderstood found r
  understood (message body rest) r t (same, _) =
      (λ e. response_sound c body r (sym same ∙ e), λ p. same ∙ response_complete c body r p)
  understood (oversized len rest) r t impossible = elim impossible [ ]
  understood truncated r t (k, failed, _) = (λ e. cc, λ x. elim x [ ])

  -- `receive_response` returns a response exactly if the control stream begins with a whole frame,
  -- of any length that its header can express, whose message parses as Cap'n Proto with a response
  -- at its root, and this has the returned id and status, the status one of the schema.
  pub receive_response-ok_iff :
      (s : ClientConnection q) (r : BxpResponse)
      → ((receive_response q c s).0 ≡ ok r)
        ↔ IsUnderstood (next_unlimited (spec.pending s.control_recv)) r
  receive_response-ok_iff s r =
      understood (next_unlimited (spec.pending s.control_recv)) r _
        (receive_response-Receives spec c s)
