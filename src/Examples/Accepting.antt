-- ===== src/Examples/Accepting.antt =====
-- Examples for the accept loop.
use bxp_core.Base.{◌≡◌, ◌↔◌, Option, some, none, List, [], ◌∷◌}
use bxp_core.Examples.{link}
use bxp_core.Quic.Memory.{Link, memory, fresh}
use bxp_core.Server.{ServerConnection}
use bxp_core.Session.{accept_loop}
use bxp_core.Session.Accepting.{Ends, accept_loop_iff}

-- A client, one whose handshake fails, and another client.
abbrev queue : List (Option Link)
queue = some (link []) ∷ (none ∷ (some (link []) ∷ []))

abbrev first : ServerConnection memory
first = record { quic_conn = link []; control_send = fresh; control_recv = [] }

accept_loop_iff_example :
    (accept_loop memory 5 queue ≡ some (first ∷ [], some (link []) ∷ []))
    ↔ Ends memory 5 queue (first ∷ [], some (link []) ∷ [])
accept_loop_iff_example = accept_loop_iff memory 5 queue (some (link []) ∷ []) (first ∷ [])
