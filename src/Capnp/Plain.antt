-- ===== src/Capnp/Plain.antt =====
-- A plain wire format that meets the assumptions on capnp, for tests and examples. It is not the
-- format of Cap'n Proto: a message is its fields, one after the other.
use bxp_core.Base.{ℕ, ◌≡◌, refl, List, [], ◌∷◌, ◌++◌, Result, ok, err, ◌==◌, if◌then◌else◌}
use bxp_core.Base.Str.{Str}
use bxp_core.Capnp.{Capnp, IsCapnp}
use bxp_core.Protocol.{Action, StatusCode, action_ordinal, status_ordinal}

-- What a reader has of a request: the action and the status are still numbers.
pub record RawRequest : Type 0 where
  pub id : ℕ
  pub code : ℕ
  pub uri : Str

pub record RawResponse : Type 0 where
  pub id : ℕ
  pub code : ℕ

abbrev encode_request : RawRequest → List ℕ
encode_request m = m.id ∷ (m.code ∷ m.uri)

abbrev decode_request : List ℕ → Result ℕ RawRequest
decode_request (id ∷ (code ∷ uri)) = ok (record { id = id; code = code; uri = uri })
decode_request _ = err 1

abbrev encode_response : RawResponse → List ℕ
encode_response m = m.id ∷ (m.code ∷ [])

abbrev decode_response : List ℕ → Result ℕ RawResponse
decode_response (id ∷ (code ∷ _)) = ok (record { id = id; code = code })
decode_response _ = err 1

abbrev to_action : ℕ → Result ℕ Action
to_action n =
    if n == 0
    then ok Action.fetch
    else if n == 1
    then ok Action.push
    else if n == 2
    then ok Action.ping
    else err n

abbrev to_status : ℕ → Result ℕ StatusCode
to_status n =
    if n == 0
    then ok StatusCode.success
    else if n == 1
    then ok StatusCode.bad_request
    else if n == 2
    then ok StatusCode.unauthorized
    else if n == 3
    then ok StatusCode.not_found
    else if n == 4
    then ok StatusCode.internal_error
    else err n

abbrev pub plain : Capnp
unfolding action_ordinal status_ordinal
plain = record {
  RequestMessage = RawRequest;
  ResponseMessage = RawResponse;
  MessageReader = List ℕ;
  RequestReader = RawRequest;
  ResponseReader = RawResponse;
  Text = Str;
  new_request = record { id = 0; code = 0; uri = [] };
  set_request_id = λ n m. record m { id = n };
  set_action = λ a m. record m { code = action_ordinal a };
  set_resource_uri = λ s m. record m { uri = s };
  new_response = record { id = 0; code = 0 };
  set_response_id = λ n m. record m { id = n };
  set_status_code = λ s m. record m { code = status_ordinal s };
  write_request = λ m out. (ok tt, out ++ encode_request m);
  write_response = λ m out. (ok tt, out ++ encode_response m);
  read_message = λ bs. ok bs;
  get_request_root = decode_request;
  get_response_root = decode_response;
  get_request_id = λ r. r.id;
  get_action = λ r. to_action r.code;
  get_resource_uri = λ r. ok r.uri;
  to_string = λ t. ok t;
  get_response_id = λ r. r.id;
  get_status_code = λ r. to_status r.code;
}

pub to_action-ordinal : (a : Action) → to_action (action_ordinal a) ≡ ok a
unfolding action_ordinal
to_action-ordinal Action.fetch = refl
to_action-ordinal Action.push = refl
to_action-ordinal Action.ping = refl

pub to_status-ordinal : (s : StatusCode) → to_status (status_ordinal s) ≡ ok s
unfolding status_ordinal
to_status-ordinal StatusCode.success = refl
to_status-ordinal StatusCode.bad_request = refl
to_status-ordinal StatusCode.unauthorized = refl
to_status-ordinal StatusCode.not_found = refl
to_status-ordinal StatusCode.internal_error = refl

unfoldable pub plain-IsCapnp : IsCapnp plain
unfolding plain action_ordinal status_ordinal
plain-IsCapnp = record {
  request_bytes = encode_request;
  response_bytes = encode_response;
  request_root = λ m. m;
  response_root = λ m. m;
  write_request-appends = λ m out. refl;
  write_response-appends = λ m out. refl;
  read-write_request = λ m h. (encode_request m, refl, refl);
  read-write_response = λ m h. (encode_response m, refl, refl);
  request_id-set = λ n m h. refl;
  request_id-set_action = λ a m. refl;
  request_id-set_uri = λ s m. refl;
  action-set = λ a m. to_action-ordinal a;
  action-set_uri = λ s m. refl;
  uri-set = λ s m h. (s, refl, refl);
  response_id-set = λ n m h. refl;
  response_id-set_status = λ s m. refl;
  status-set = λ s m. to_status-ordinal s;
}
