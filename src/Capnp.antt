-- ===== src/Capnp.antt =====
-- What src/client.rs and src/server.rs call of the crate capnp and of the code that the build
-- generates from schema/bxp.capnp, neither of which is in the repository: the operations as a
-- parameter `Capnp`, and their documented behaviour as the hypotheses `IsCapnp`. A foreign error
-- is a number.
pub mod Plain
use bxp_core.Base.{ℕ, ◌*◌, ◌≤◌, ◌<◌, ◌≡◌, List, ◌++◌, Result, ok, length}
use bxp_core.Base.Bytes.{u32_mod}
use bxp_core.Base.Str.{Str}
use bxp_core.Protocol.{Action, StatusCode}

-- A code point as such: no surrogate, and below 0x110000.
abbrev pub IsScalar : ℕ → Type 0
IsScalar a = (a < 0x110000) × (0xd800 ≤ a → 0xe000 ≤ a)

abbrev AllScalar : Str → Type 0
AllScalar = elim [ List.[] ↦ Unit | List.◌∷◌ a (s → rest) ↦ IsScalar a × rest ]

-- A string that fits a Cap'n Proto text, whose size in bytes is a 29-bit number. A code point
-- takes four bytes at most.
pub record IsText (s : Str) : Type 0 where
  pub scalars : AllScalar s
  pub fits : 4 * length s < 536870911

-- The default traversal limit of `ReaderOptions::new()`, in bytes.
abbrev pub traversal_limit : ℕ
traversal_limit = 67108864

pub record Capnp : Type 1 where
  -- A `message::Builder` whose root is a request, or a response.
  pub RequestMessage : Type 0
  pub ResponseMessage : Type 0
  pub MessageReader : Type 0
  pub RequestReader : Type 0
  pub ResponseReader : Type 0
  pub Text : Type 0
  -- `Builder::new_default` and `init_root`
  pub new_request : RequestMessage
  pub set_request_id : ℕ → RequestMessage → RequestMessage
  pub set_action : Action → RequestMessage → RequestMessage
  pub set_resource_uri : Str → RequestMessage → RequestMessage
  pub new_response : ResponseMessage
  pub set_response_id : ℕ → ResponseMessage → ResponseMessage
  pub set_status_code : StatusCode → ResponseMessage → ResponseMessage
  -- `serialize::write_message` into a `Vec<u8>`, with the vector after the call.
  pub write_request : RequestMessage → List ℕ → Result ℕ (Unit {0}) × List ℕ
  pub write_response : ResponseMessage → List ℕ → Result ℕ (Unit {0}) × List ℕ
  -- `serialize::read_message` and `get_root`
  pub read_message : List ℕ → Result ℕ MessageReader
  pub get_request_root : MessageReader → Result ℕ RequestReader
  pub get_response_root : MessageReader → Result ℕ ResponseReader
  pub get_request_id : RequestReader → ℕ
  -- The error is `NotInSchema`.
  pub get_action : RequestReader → Result ℕ Action
  pub get_resource_uri : RequestReader → Result ℕ Text
  pub to_string : Text → Result ℕ Str
  pub get_response_id : ResponseReader → ℕ
  pub get_status_code : ResponseReader → Result ℕ StatusCode

pub record IsCapnp (c : Capnp) : Type 0 where
  -- The serialised form of a message, and the reader that a message itself gives for its root.
  pub request_bytes : c.RequestMessage → List ℕ
  pub response_bytes : c.ResponseMessage → List ℕ
  pub request_root : c.RequestMessage → c.RequestReader
  pub response_root : c.ResponseMessage → c.ResponseReader
  -- Writing to a vector appends, and cannot fail.
  pub write_request-appends :
      (m : c.RequestMessage) (out : List ℕ)
      → c.write_request m out ≡ (ok tt, out ++ request_bytes m)
  pub write_response-appends :
      (m : c.ResponseMessage) (out : List ℕ)
      → c.write_response m out ≡ (ok tt, out ++ response_bytes m)
  -- A message within the traversal limit is read back.
  pub read-write_request :
      (m : c.RequestMessage)
      → length (request_bytes m) ≤ traversal_limit
      → (r : c.MessageReader) × (c.read_message (request_bytes m) ≡ ok r)
        × (c.get_request_root r ≡ ok (request_root m))
  pub read-write_response :
      (m : c.ResponseMessage)
      → length (response_bytes m) ≤ traversal_limit
      → (r : c.MessageReader) × (c.read_message (response_bytes m) ≡ ok r)
        × (c.get_response_root r ≡ ok (response_root m))
  -- A field is read as it was set last, and setting another field leaves it alone.
  pub request_id-set :
      (n : ℕ) (m : c.RequestMessage)
      → n < u32_mod
      → c.get_request_id (request_root (c.set_request_id n m)) ≡ n
  pub request_id-set_action :
      (a : Action) (m : c.RequestMessage)
      → c.get_request_id (request_root (c.set_action a m)) ≡ c.get_request_id (request_root m)
  pub request_id-set_uri :
      (s : Str) (m : c.RequestMessage)
      → c.get_request_id (request_root (c.set_resource_uri s m)) ≡ c.get_request_id (request_root m)
  pub action-set :
      (a : Action) (m : c.RequestMessage) → c.get_action (request_root (c.set_action a m)) ≡ ok a
  pub action-set_uri :
      (s : Str) (m : c.RequestMessage)
      → c.get_action (request_root (c.set_resource_uri s m)) ≡ c.get_action (request_root m)
  pub uri-set :
      (s : Str) (m : c.RequestMessage)
      → IsText s
      → (t : c.Text) × (c.get_resource_uri (request_root (c.set_resource_uri s m)) ≡ ok t)
        × (c.to_string t ≡ ok s)
  pub response_id-set :
      (n : ℕ) (m : c.ResponseMessage)
      → n < u32_mod
      → c.get_response_id (response_root (c.set_response_id n m)) ≡ n
  pub response_id-set_status :
      (s : StatusCode) (m : c.ResponseMessage)
      → c.get_response_id (response_root (c.set_status_code s m))
        ≡ c.get_response_id (response_root m)
  pub status-set :
      (s : StatusCode) (m : c.ResponseMessage)
      → c.get_status_code (response_root (c.set_status_code s m)) ≡ ok s
