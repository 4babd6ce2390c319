-- ===== src/Stream.antt =====
-- The data plane that src/client.rs and src/server.rs share: a unidirectional stream that begins
-- with the four bytes of the request id (spec/spec.md, 5).
pub mod Transfer
use bxp_core.Base.{ℕ, List, Result, ok, err, Method, ◌>>=◌, ◌>>◌}
use bxp_core.Base.Bytes.{to_le_bytes, from_le_bytes}
use bxp_core.Frame.{on_field}
use bxp_core.Protocol.{Error, quic, io}
use bxp_core.Quic.{Quic}

module _ (q : Quic) where
  -- The calls of `send_data_stream` on the stream that it opened.
  unfoldable pub write_stream : ℕ → q.Source → Method Error q.SendStream (Unit {0})
  write_stream req_id reader = do
    on_field (λ s. s) (λ s _. s) quic (q.write_all (to_le_bytes req_id))
    on_field (λ s. s) (λ s _. s) io (q.copy reader)
    on_field (λ s. s) (λ s _. s) quic q.finish

  -- The stream is dropped at the end of the call, however it ends.
  unfoldable pub release :
      Result Error (Unit {0}) × q.SendStream → q.Connection → Result Error (Unit {0}) × q.Connection
  release (r, s) c = (r, q.drop_send s c)

  unfoldable pub send_on : ℕ → q.Source → Method Error q.Connection (Unit {0})
  unfolding write_stream release
  send_on req_id reader c = elim (q.open_uni c).0 [
    | err e ↦ (err (quic e), (q.open_uni c).1)
    | ok data_send ↦ release (write_stream req_id reader data_send) (q.open_uni c).1
  ]

  -- The four bytes of the request id; the stream is dropped if they cannot be read.
  unfoldable pub read_preamble :
      Result ℕ (List ℕ) × q.RecvStream
      → q.Connection
      → Result Error (ℕ × q.RecvStream) × q.Connection
  read_preamble (ok id_buf, data_recv) c = (ok (from_le_bytes id_buf, data_recv), c)
  read_preamble (err e, data_recv) c = (err (quic e), q.drop_recv data_recv c)

  unfoldable pub read_on : Method Error q.Connection (ℕ × q.RecvStream)
  unfolding read_preamble
  read_on c = elim (q.accept_uni c).0 [
    | err e ↦ (err (quic e), (q.accept_uni c).1)
    | ok data_recv ↦ read_preamble (q.read_exact 4 data_recv) (q.accept_uni c).1
  ]
