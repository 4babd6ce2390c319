-- ===== src/Router.antt =====
-- src/router.rs: `BxpRouter`, its registration of handlers, and the dispatch of a request. The
-- traits of that file turn an async function into a boxed handler; here a handler is what such a
-- function does to the connection.
pub mod Laws
pub mod Dispatch
use bxp_core.Base.{Option, some, none, [], Method, ok, lift, ◌>>◌, ◌>>=◌}
use bxp_core.Base.Str.{Str}
use bxp_core.Capnp.{Capnp}
use bxp_core.HashMap.{HashMap, get, insert, entry_or, action_key, str_key}
use bxp_core.Protocol.{BxpAction, BxpRequest, BxpStatus, Error}
use bxp_core.Quic.{Quic}
use bxp_core.Server.{ServerConnection, send_response}

-- `Box<dyn BxpHandler>`
abbrev pub BxpHandler : Quic → Type 0
BxpHandler q = BxpRequest → Method Error (ServerConnection q) (Unit {0})

pub record BxpRouter (q : Quic) : Type 0 where
  pub routes : HashMap BxpAction (HashMap Str (BxpHandler q))

module _ {q : Quic} where
  unfoldable pub new : BxpRouter q
  new = record { routes = [] }

  unfoldable pub route : BxpAction → Str → BxpHandler q → BxpRouter q → BxpRouter q
  route action uri handler self = record self {
    routes = insert self.routes action (insert (entry_or self.routes action []) uri handler);
  }

  abbrev in_table : Option (HashMap Str (BxpHandler q)) → Str → Option (BxpHandler q)
  in_table none uri = none
  in_table (some m) uri = get m uri

  -- `self.routes.get(&req.action).and_then(|m| m.get(req.uri.as_str()))`
  unfoldable pub find : BxpRouter q → BxpAction → Str → Option (BxpHandler q)
  find self action uri = in_table (get self.routes action) uri

module _ (q : Quic) (c : Capnp) where
  unfoldable pub handle_request :
      BxpRouter q → BxpRequest → Method Error (ServerConnection q) (Unit {0})
  handle_request self req = elim (find self req.action req.uri) [
    | some handler ↦ do handler req; lift (ok tt)
    | none ↦ do send_response q c req.req_id BxpStatus.not_found; lift (ok tt)
  ]
