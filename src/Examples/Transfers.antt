-- ===== src/Examples/Transfers.antt =====
-- Examples for fetches that are answered by data streams.
use bxp_core.Base.{sym, ℕ, ◌≡◌, refl, some, Option, List, [], ◌∷◌, take, arith}
use bxp_core.Base.Str.{Str, codes}
use bxp_core.Capnp.Plain.{plain, plain-IsCapnp}
use bxp_core.Client.{ClientConnection}
use bxp_core.Examples.{wire, link, server_at, client_at, whole, broken}
use bxp_core.Exchange.Request.{IsSendable}
use bxp_core.Exchange.Response.{IsReply}
use bxp_core.Exchange.Script.{AllServable, request_frames, send_all, receive_all, replies}
use bxp_core.Exchange.Streams.{Yields, client_reads}
use bxp_core.Protocol.{BxpStatus}
use bxp_core.Quic.Memory.{memory, memory-IsQuic, fresh}
use bxp_core.Server.{ServerConnection}
use bxp_core.Session.{serve, file_router}
use bxp_core.Session.Download.{written-download}
use bxp_core.Session.FileTransfer.{
  Outcome, movie, movie_router, movie_task, movie_client, movie_session,
}
use bxp_core.Session.FileTransfer.Truncated.{movie_session_truncated}
use bxp_core.Session.Replies.{output}
use bxp_core.Session.Transfers.{fetch_file, fetches, granted, owed_streams, streams, fetch_session}
use mathlib.Core.List.Permᴰ
use mathlib.Core.List.{Permᴰ}

abbrev pub file : Str
file = codes "bxp://file"

pub fetch_file-IsSendable : IsSendable plain-IsCapnp (fetch_file file 55)
unfolding wire
fetch_file-IsSendable = record {
  id_fits = omega arith;
  is_text = record { scalars = omega arith; fits = omega arith };
  small = omega arith;
}

pub granted-IsReply : IsReply plain-IsCapnp (record { req_id = 55; status = BxpStatus.success })
unfolding wire
granted-IsReply = record { id_fits = omega arith; small = omega arith }

fetches-AllServable : AllServable plain-IsCapnp granted (fetches file (55 ∷ []))
fetches-AllServable = (fetch_file-IsSendable, granted-IsReply, tt)

abbrev serving : ServerConnection memory
serving = server_at (
    memory-IsQuic.written
      (send_all memory plain (fetches file (55 ∷ [])) (client_at [])).control_send)

abbrev reading : ClientConnection memory
reading = record {
  quic_conn = link (
      streams memory-IsQuic plain-IsCapnp
        (serve memory plain 2 (file_router memory plain file whole) serving));
  control_send = fresh;
  control_recv =
      output memory-IsQuic plain-IsCapnp
        (serve memory plain 2 (file_router memory plain file whole) serving);
  endpoint = [];
}

fetch_session_example :
    (receive_all memory plain 1 reading ≡ replies granted (fetches file (55 ∷ [])))
    × (arrived : List (ℕ × List ℕ)) × Permᴰ (owed_streams whole.yields (55 ∷ [])) arrived
    × Yields memory-IsQuic (client_reads memory 1 reading) arrived
unfolding memory-IsQuic
fetch_session_example =
    fetch_session memory-IsQuic plain-IsCapnp file 2 whole (55 ∷ []) (client_at []) reading serving
      fetches-AllServable (refl, refl) (refl, refl) refl refl refl refl refl refl refl
      (Permᴰ.refl _) (omega arith)

movie-IsSendable : IsSendable plain-IsCapnp (fetch_file movie 1)
unfolding wire
movie-IsSendable = record {
  id_fits = omega arith;
  is_text = record { scalars = omega arith; fits = omega arith };
  small = omega arith;
}

granted_movie-IsReply : IsReply plain-IsCapnp (record { req_id = 1; status = BxpStatus.success })
unfolding wire
granted_movie-IsReply = record { id_fits = omega arith; small = omega arith }

movie-AllServable : AllServable plain-IsCapnp granted (fetches movie (1 ∷ []))
movie-AllServable = (movie-IsSendable, granted_movie-IsReply, tt)

abbrev fetching : ServerConnection memory
fetching = server_at (request_frames plain-IsCapnp (fetches movie (1 ∷ [])))

abbrev fetched : Option (ServerConnection memory)
fetched = serve memory plain 2 (movie_router memory plain whole) fetching

abbrev watching : ClientConnection memory
watching = record {
  quic_conn = link (streams memory-IsQuic plain-IsCapnp fetched);
  control_send = fresh;
  control_recv = output memory-IsQuic plain-IsCapnp fetched;
  endpoint = [];
}

movie_session_example :
    ((t : ServerConnection memory) × (movie_task memory plain 2 whole fetching ≡ some t))
    × ((movie_client memory plain watching).0 ≡ Outcome.saved whole.yields)
    × (memory-IsQuic.closed_with (movie_client memory plain watching).1.0 ≡ some (0, codes "Done"))
unfolding memory-IsQuic
movie_session_example =
    movie_session memory-IsQuic plain-IsCapnp 2 whole watching fetching movie-AllServable
      (refl, refl) (refl, refl) refl refl refl refl refl
      (sym (
        written-download memory-IsQuic plain-IsCapnp movie 1 watching movie-AllServable
          (refl, refl)))
      refl refl refl (omega arith)

abbrev cut : Option (ServerConnection memory)
cut = serve memory plain 2 (movie_router memory plain broken) fetching

abbrev misled : ClientConnection memory
misled = record {
  quic_conn = link (streams memory-IsQuic plain-IsCapnp cut);
  control_send = fresh;
  control_recv = output memory-IsQuic plain-IsCapnp cut;
  endpoint = [];
}

movie_session_truncated_example :
    (k : ℕ) × ((movie_client memory plain misled).0 ≡ Outcome.saved (take k broken.yields))
    × (memory-IsQuic.closed_with (movie_client memory plain misled).1.0 ≡ some (0, codes "Done"))
unfolding memory-IsQuic
movie_session_truncated_example =
    movie_session_truncated memory-IsQuic plain-IsCapnp 0 broken 7 misled fetching movie-AllServable
      (refl, refl) (refl, refl) refl refl refl refl refl refl refl refl
