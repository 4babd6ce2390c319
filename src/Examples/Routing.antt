-- ===== src/Examples/Routing.antt =====
-- Examples for the router.
use bxp_core.Base.{◌≡◌, ◌&&◌, some, List, [], ◌∷◌, if◌then◌else◌}
use bxp_core.Base.Str.{Str, codes, str_eq}
use bxp_core.Capnp.Plain.{plain}
use bxp_core.Examples.{server_at, ping}
use bxp_core.Protocol.{BxpAction, action_eq}
use bxp_core.Quic.Memory.{memory}
use bxp_core.Router.{BxpHandler, new, route, find, handle_request}
use bxp_core.Router.Dispatch.{answer, handle_request-build}
use bxp_core.Router.Laws.{build, newest, find-route}
use bxp_core.Session.{handle_ping}

abbrev pinger : BxpHandler memory
pinger = handle_ping memory plain

find-route_example :
    find (route BxpAction.ping (codes "a") pinger (new {q = memory})) BxpAction.fetch (codes "a")
    ≡ (if action_eq BxpAction.ping BxpAction.fetch && str_eq (codes "a") (codes "a")
        then some pinger
        else find (new {q = memory}) BxpAction.fetch (codes "a"))
find-route_example = find-route new BxpAction.ping BxpAction.fetch (codes "a") (codes "a") pinger

abbrev regs : List (BxpAction × Str × BxpHandler memory)
regs = (BxpAction.ping, codes "bxp://ping", pinger) ∷ ((BxpAction.fetch, codes "b", pinger) ∷ [])

handle_request-build_example :
    handle_request memory plain (build regs) ping (server_at [])
    ≡ answer plain (newest regs ping.action ping.uri) ping (server_at [])
handle_request-build_example = handle_request-build plain regs ping (server_at [])
