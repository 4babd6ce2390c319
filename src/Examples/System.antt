-- ===== src/Examples/System.antt =====
-- Examples for the system of a client, a server and a network.
use bxp_core.Base.{◌≡◌, refl, true, [], ◌∷◌, arith, append-nil, ◌++◌, sym, ℕ, take}
use bxp_core.Base.Str.{codes, str_eq}
use bxp_core.Capnp.Plain.{plain, plain-IsCapnp}
use bxp_core.Examples.{server_at, client_at, ping, ping-IsSendable, pong-IsReply, broken}
use bxp_core.Exchange.Script.{send_all, receive_all}
use bxp_core.Protocol.{BxpAction, action_eq}
use bxp_core.Quic.Memory.{memory, memory-IsQuic}
use bxp_core.Client.{ClientConnection}
use bxp_core.Server.{ServerConnection}
use bxp_core.Session.{serve, ping_router, file_router}
use bxp_core.Session.Replies.{output}
use bxp_core.Session.Route.{route_status}
use bxp_core.Session.Handlers.{ping_status, ping_router-Answers, file_router-Answers}
use bxp_core.System.{Network, World, Parts, Work, Step, Reach, IsServable, sent, arrived_up}
use bxp_core.System.Invariant.{IsGood, IsNew}
use bxp_core.System.Sequential.{received_sequential}
use bxp_core.System.Service.{Service, ServiceRun, opened, service_refined}

unfoldable pub wires : Network memory-IsQuic
unfolding memory-IsQuic
wires = record { arrive = λ bs r. r ++ bs; pending-arrive = λ bs r. refl }

abbrev pub parts : Parts
parts = record {
  q = memory;
  c = plain;
  spec = memory-IsQuic;
  codec = plain-IsCapnp;
  network = wires;
  router = ping_router memory plain (codes "bxp://ping");
  status = ping_status (codes "bxp://ping");
}

-- The same parts with a router for the file transfer, whose source fails.
abbrev file_parts : Parts
file_parts = record parts {
  router = file_router memory plain (codes "bxp://file") broken;
  status = route_status BxpAction.fetch (codes "bxp://file");
}

file_parts-IsGood : IsGood file_parts
file_parts-IsGood = file_router-Answers memory-IsQuic plain-IsCapnp (codes "bxp://file") broken

abbrev pub born : World memory
born = record {
  client = client_at [];
  server = server_at [];
  serving = true;
  up = [];
  down = [];
  asked = [];
  received = [];
}

pub born-IsNew : IsNew parts born
unfolding memory-IsQuic
born-IsNew = record {
  none_asked = refl;
  none_received = refl;
  none_up = refl;
  none_down = refl;
  ready = (refl, refl);
  opened = (refl, refl);
  serving = refl;
}

pub ping-IsServable : IsServable parts ping
unfolding ping_status action_eq str_eq
ping-IsServable = (ping-IsSendable, pong-IsReply)

pub parts-IsGood : IsGood parts
parts-IsGood = ping_router-Answers memory-IsQuic plain-IsCapnp (codes "bxp://ping")

-- The ping was sent, and all of it has arrived.
abbrev asking : World memory
asking = sent parts born ping

abbrev arrived : World memory
arrived = arrived_up parts asking asking.up []

arrived-Reach : Reach parts born arrived
arrived-Reach =
    Reach.later (Reach.later Reach.start (Step.send ping ping-IsServable))
      (Step.work (Work.arrive_up asking.up [] (sym (append-nil asking.up))))

service_refined_example :
    (s : Service) × ServiceRun parts.status opened s
    × (s.asked ≡ arrived.asked)
    × (s.log ≡ arrived.received)
service_refined_example = service_refined parts parts-IsGood born-IsNew arrived-Reach

-- The same ping when one call follows the other.
abbrev alone : ServerConnection memory
alone = server_at (send_all memory plain (ping ∷ []) (client_at [])).control_send.written

abbrev reading : ClientConnection memory
reading = client_at (output memory-IsQuic plain-IsCapnp (serve memory plain 2 parts.router alone))

received_sequential_example :
    (k : ℕ) × (arrived.received ≡ take k (receive_all memory plain 1 reading))
unfolding memory-IsQuic
received_sequential_example =
    received_sequential parts parts-IsGood {t = arrived} born-IsNew arrived-Reach 2 (client_at [])
      reading alone (refl, refl) (refl, refl) refl refl refl refl (omega arith)
