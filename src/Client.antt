-- ===== src/Client.antt =====
-- src/client.rs: the methods of `BxpClientConnection`. The connection is passed on explicitly: a
-- method returns its result and the connection after the call, also when it fails.
pub mod Receive
pub mod Send
pub mod Decode
use bxp_core.Base.{ℕ, List, Result, ok, map_err, and_then, Method, ◌>>=◌, ◌>>◌, lift, replicate}
use bxp_core.Base.Bytes.{from_le_bytes}
use bxp_core.Base.Str.{Str, codes}
use bxp_core.Capnp.{Capnp}
use bxp_core.Frame.{on_field, fill_length}
use bxp_core.Protocol.{
  BxpAction, BxpResponse, Error, quic, capnp, unknown_status_code, action_into, status_try_from,
}
use bxp_core.Quic.{Quic}
use bxp_core.Stream

pub record ClientConnection (q : Quic) : Type 0 where
  pub quic_conn : q.Connection
  pub control_send : q.SendStream
  pub control_recv : q.RecvStream
  pub endpoint : q.Endpoint

module _ {q : Quic} where
  abbrev pub on_recv :
      {A : Type 0}
      → (q.RecvStream → Result ℕ A × q.RecvStream)
      → Method Error (ClientConnection q) A
  on_recv = on_field (λ s. s.control_recv) (λ r s. record s { control_recv = r }) quic

  abbrev pub on_send :
      {A : Type 0}
      → (q.SendStream → Result ℕ A × q.SendStream)
      → Method Error (ClientConnection q) A
  on_send = on_field (λ s. s.control_send) (λ r s. record s { control_send = r }) quic

  abbrev pub on_conn :
      {A : Type 0} → Method Error q.Connection A → Method Error (ClientConnection q) A
  on_conn m s = ((m s.quic_conn).0, record s { quic_conn = (m s.quic_conn).1 })

module _ (c : Capnp) where
  -- The message that `send_request` builds.
  unfoldable pub request_message : ℕ → BxpAction → Str → c.RequestMessage
  request_message req_id action uri =
      c.set_resource_uri uri
        (c.set_action (action_into action) (c.set_request_id req_id c.new_request))

  -- What `receive_response` does with the bytes of a message.
  unfoldable pub decode_response : List ℕ → Result Error BxpResponse
  decode_response msg_buf = and_then (map_err capnp (c.read_message msg_buf)) λ message_reader.
      and_then (map_err capnp (c.get_response_root message_reader)) λ response.
        and_then (map_err (λ _. unknown_status_code) (c.get_status_code response)) λ capnp_status.
          and_then (status_try_from capnp_status)
            λ status. ok (record { req_id = c.get_response_id response; status = status })

module _ (q : Quic) (c : Capnp) where
  unfoldable pub send_request : ℕ → BxpAction → Str → Method Error (ClientConnection q) (Unit {0})
  send_request req_id action uri = do
    let out_buf = c.write_request (request_message c req_id action uri) (replicate 4 0)
    lift (map_err capnp out_buf.0)
    on_send (q.write_all (fill_length out_buf.1))

  -- The rest of `receive_response`, once the header was read.
  unfoldable pub receive_message : ℕ → Method Error (ClientConnection q) BxpResponse
  receive_message len = do msg_buf ← on_recv (q.read_exact len); lift (decode_response c msg_buf)

  unfoldable pub receive_response : Method Error (ClientConnection q) BxpResponse
  receive_response = do len_buf ← on_recv (q.read_exact 4); receive_message (from_le_bytes len_buf)

module _ (q : Quic) where
  unfoldable pub send_data_stream : ℕ → q.Source → Method Error (ClientConnection q) (Unit {0})
  send_data_stream req_id reader = on_conn (Stream.send_on q req_id reader)

  unfoldable pub read_data_stream : Method Error (ClientConnection q) (ℕ × q.RecvStream)
  read_data_stream = on_conn (Stream.read_on q)

  -- The method takes `self`: what is left is the closed connection and the idle endpoint.
  unfoldable pub close : ClientConnection q → q.Connection × q.Endpoint
  close s = (q.close 0 (codes "Done") s.quic_conn, q.wait_idle s.endpoint)
