-- ===== src/Examples/Data.antt =====
-- Examples for the data streams.
use bxp_core.Base.{ℕ, refl, ◌++◌, List, [], ◌∷◌, arith}
use bxp_core.Base.Bytes.{to_le_bytes}
use bxp_core.Examples.{link, client_at, whole}
use bxp_core.Exchange.Streams.{contents, Yields, client_sends, server_reads}
use bxp_core.Exchange.Streams.Reordered.{uploads}
use bxp_core.Client
use bxp_core.Quic.Memory.{memory, memory-IsQuic, Bytes, fresh}
use bxp_core.Server.{ServerConnection}
use bxp_core.Stream.{send_on, write_stream, release}
use mathlib.Core.List.{Permᴰ}

abbrev transfers : List (ℕ × Bytes)
transfers = (5, whole) ∷ ((6, whole) ∷ [])

-- The two streams arrive in the other order.
abbrev swapped : List (List ℕ)
swapped = (to_le_bytes 6 ++ (72 ∷ (105 ∷ []))) ∷ ((to_le_bytes 5 ++ (72 ∷ (105 ∷ []))) ∷ [])

abbrev uploading : ServerConnection memory
uploading = record { quic_conn = link swapped; control_send = fresh; control_recv = [] }

uploads_example :
    (arrived : List (ℕ × List ℕ)) × Permᴰ (contents memory-IsQuic transfers) arrived
    × Yields memory-IsQuic (server_reads memory 2 uploading) arrived
unfolding memory-IsQuic client_sends Client.send_data_stream send_on release write_stream
    to_le_bytes
uploads_example =
    uploads memory-IsQuic transfers (client_at []) uploading (refl, (refl, tt)) (omega arith) refl
      refl (Permᴰ.swap refl refl)
