-- ===== src/Examples/Loops.antt =====
-- Examples for a message that is refused, and for the loop of the benchmark's client.
use bxp_core.Base.{
  sym, ℕ, suc, ◌+◌, ◌≤◌, ◌≡◌, refl, ap, ◌∙◌, ◌++◌, some, Option, inr, List, [], ◌∷◌, arith, length,
  ltb, if◌then◌else◌,
}
use bxp_core.Base.Str.{codes, str_eq}
use bxp_core.Capnp.Plain.{plain, plain-IsCapnp}
use bxp_core.Client.{ClientConnection}
use bxp_core.Examples.{wire, server_at, client_at}
use bxp_core.Exchange.Request.{IsSendable}
use bxp_core.Exchange.Response.{IsReply}
use bxp_core.Exchange.Script.{AllServable, request_frames, reply_frames, replies, receive_all}
use bxp_core.Frame.{frame}
use bxp_core.Protocol.{BxpStatus, action_eq, invalid_action}
use bxp_core.Quic.Memory.{memory, memory-IsQuic}
use bxp_core.Server.{ServerConnection, decode_request}
use bxp_core.Session.{serve, ping_router}
use bxp_core.Session.Benchmark.{
  ping_at, pings, benchmark_router, Report, Ending, measured, benchmark_client,
}
use bxp_core.Session.Benchmark.Library.{Std, IsStd, IsSorted}
use bxp_core.Session.Benchmark.Measured.{
  benchmark_loop-reply_frames, served_pings, benchmark_session,
}
use bxp_core.Session.Benchmark.Sent.{written-measured}
use bxp_core.Session.Handlers.{ping_status, ping_router-Answers}
use bxp_core.Session.Refused.{IsRefused, refused_session}
use bxp_core.Session.Replies.{output}

ping_at-IsSendable : IsSendable plain-IsCapnp (ping_at 0)
unfolding wire
ping_at-IsSendable = record {
  id_fits = omega arith;
  is_text = record { scalars = omega arith; fits = omega arith };
  small = omega arith;
}

zeroth-IsReply : IsReply plain-IsCapnp (record { req_id = 0; status = BxpStatus.success })
unfolding wire
zeroth-IsReply = record { id_fits = omega arith; small = omega arith }

pings-AllServable : AllServable plain-IsCapnp (ping_status (codes "bxp://benchmark")) (pings 0 1)
unfolding ping_status action_eq str_eq
pings-AllServable = (ping_at-IsSendable, zeroth-IsReply, tt)

-- A ping, and then a message whose action has the number 7.
abbrev spoiled : ServerConnection memory
spoiled = server_at (request_frames plain-IsCapnp (pings 0 1) ++ (frame (5 ∷ (7 ∷ [])) ++ (1 ∷ [])))

abbrev spoiled_task : Option (ServerConnection memory)
spoiled_task = serve memory plain 2 (ping_router memory plain (codes "bxp://benchmark")) spoiled

bad_message-IsRefused : IsRefused plain (5 ∷ (7 ∷ []))
unfolding decode_request wire
bad_message-IsRefused = inr (omega arith, invalid_action, refl)

refused_session_example :
    let status = ping_status (codes "bxp://benchmark") in
    (t : ServerConnection memory) × (spoiled_task ≡ some t)
    × (t.control_send.written ≡ reply_frames plain-IsCapnp status (pings 0 1))
    × (receive_all memory plain 1 (client_at (output memory-IsQuic plain-IsCapnp spoiled_task))
        ≡ replies status (pings 0 1))
    × ((skipped : List ℕ) × (t.control_recv ≡ skipped ++ (1 ∷ [])))
    × (m : ℕ) × (u : ServerConnection memory) × (spoiled_task
        ≡ serve memory plain (suc m) (ping_router memory plain (codes "bxp://benchmark")) u)
    × (u.control_recv ≡ frame (5 ∷ (7 ∷ [])) ++ (1 ∷ []))
    × (t.quic_conn ≡ u.quic_conn)
unfolding memory-IsQuic
refused_session_example =
    refused_session memory-IsQuic plain-IsCapnp 2
      (ping_router memory plain (codes "bxp://benchmark")) (ping_status (codes "bxp://benchmark"))
      (pings 0 1) (5 ∷ (7 ∷ [])) (1 ∷ []) spoiled
      (client_at (output memory-IsQuic plain-IsCapnp spoiled_task))
      (ping_router-Answers memory-IsQuic plain-IsCapnp (codes "bxp://benchmark")) pings-AllServable
      (omega arith) bad_message-IsRefused (refl, refl) refl refl refl (omega arith)

ping_at_1-IsSendable : IsSendable plain-IsCapnp (ping_at 1)
unfolding wire
ping_at_1-IsSendable = record {
  id_fits = omega arith;
  is_text = record { scalars = omega arith; fits = omega arith };
  small = omega arith;
}

first-IsReply : IsReply plain-IsCapnp (record { req_id = 1; status = BxpStatus.success })
unfolding wire
first-IsReply = record { id_fits = omega arith; small = omega arith }

two_pings-AllServable :
    AllServable plain-IsCapnp (ping_status (codes "bxp://benchmark")) (pings 0 2)
unfolding ping_status action_eq str_eq
two_pings-AllServable =
    (ping_at-IsSendable, zeroth-IsReply, (ping_at_1-IsSendable, first-IsReply, tt))

-- Two pings, of which the client sends the second when it has received the response to the first.
abbrev serving : ServerConnection memory
serving = server_at (request_frames plain-IsCapnp (pings 0 2))

abbrev reading : ClientConnection memory
reading = client_at (
    output memory-IsQuic plain-IsCapnp
      (serve memory plain 3 (benchmark_router memory plain) serving))

abbrev insert : ℕ → List ℕ → List ℕ
insert x [] = x ∷ []
insert x (y ∷ ys) = if ltb y x then y ∷ insert x ys else x ∷ (y ∷ ys)

abbrev sort : List ℕ → List ℕ
sort [] = []
sort (x ∷ xs) = insert x (sort xs)

-- A clock that advances by 3 with each reading.
abbrev std : Std
std = record { Clock = ℕ; now = λ t. (t, t + 3); sort = sort }

length-insert : (x : ℕ) (ys : List ℕ) → length (insert x ys) ≡ suc (length ys)
length-insert x [] = refl
length-insert x (y ∷ ys) = ground (arith, length-insert x ys)

length-sort : (xs : List ℕ) → length (sort xs) ≡ length xs
length-sort [] = refl
length-sort (x ∷ xs) = length-insert x (sort xs) ∙ ap suc (length-sort xs)

insert-IsSorted : (x : ℕ) (ys : List ℕ) → IsSorted ys → IsSorted (insert x ys)
insert-IsSorted x [] h = tt
insert-IsSorted x (y ∷ []) h = ground arith
insert-IsSorted x (y ∷ (z ∷ ys)) (first, h) = ground (arith, insert-IsSorted x (z ∷ ys) h)

sort-IsSorted : (xs : List ℕ) → IsSorted (sort xs)
sort-IsSorted [] = tt
sort-IsSorted (x ∷ xs) = insert-IsSorted x (sort xs) (sort-IsSorted xs)

std-IsStd : IsStd std
std-IsStd = record { length-sort = length-sort; sort-IsSorted = sort-IsSorted }

two_pings_sent :
    (measured memory plain std 2 (reading, 0)).1.0.control_send.written
    ≡ request_frames plain-IsCapnp (pings 0 2)
unfolding memory-IsQuic
two_pings_sent =
    let (_, _, _, sent, _) =
      benchmark_loop-reply_frames memory-IsQuic plain-IsCapnp std
        (ping_status (codes "bxp://benchmark")) 2 0 [] reading 3 two_pings-AllServable (refl, refl)
        (served_pings memory-IsQuic plain-IsCapnp 2 3 serving two_pings-AllServable (refl, refl)
          refl refl (omega arith)) in
    written-measured memory-IsQuic plain-IsCapnp std 2 reading 0 ∙ sent

benchmark_session_example :
    ((measured memory plain std 2 (reading, 0)).1.0.control_send.written
      ≡ request_frames plain-IsCapnp (pings 0 2))
    × (r : Report) × ((benchmark_client memory plain std 2 (reading, 0)).0 ≡ Ending.reported r)
    × (r.p50 ≤ r.p90)
    × (r.p90 ≤ r.p99)
    × (memory-IsQuic.closed_with (benchmark_client memory plain std 2 (reading, 0)).1.0
        ≡ some (0, codes "Done"))
unfolding memory-IsQuic
benchmark_session_example =
    benchmark_session memory-IsQuic plain-IsCapnp std-IsStd 2 3 reading 0 serving (omega arith)
      two_pings-AllServable (refl, refl) (refl, refl) refl refl (sym two_pings_sent) refl
      (omega arith)
