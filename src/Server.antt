-- ===== src/Server.antt =====
-- src/server.rs: the methods of `BxpServerConnection`, and `BxpServer::accept`. The connection is
-- passed on explicitly: a method returns its result and the connection after the call, also when
-- it fails.
pub mod Accept
pub mod Receive
pub mod Decode
pub mod Respond
use bxp_core.Base.{
  ℕ, ◌*◌, List, Option, some, none, Bool, ltb, Result, ok, err, map_err, and_then, Method, ◌>>=◌,
  ◌>>◌, lift, replicate, if◌then◌else◌,
}
use bxp_core.Base.Bytes.{from_le_bytes}
use bxp_core.Base.Str.{codes}
use bxp_core.Capnp.{Capnp}
use bxp_core.Frame.{on_field, fill_length}
use bxp_core.Protocol.{
  BxpRequest, BxpStatus, Error, quic, capnp, too_large, invalid_action, action_try_from,
  status_into,
}
use bxp_core.Quic.{Quic}
use bxp_core.Stream

abbrev pub max_control_msg : ℕ
max_control_msg = 1024 * 1024

pub record ServerConnection (q : Quic) : Type 0 where
  pub quic_conn : q.Connection
  pub control_send : q.SendStream
  pub control_recv : q.RecvStream

module _ {q : Quic} where
  abbrev pub on_recv :
      {A : Type 0}
      → (q.RecvStream → Result ℕ A × q.RecvStream)
      → Method Error (ServerConnection q) A
  on_recv = on_field (λ s. s.control_recv) (λ r s. record s { control_recv = r }) quic

  abbrev pub on_send :
      {A : Type 0}
      → (q.SendStream → Result ℕ A × q.SendStream)
      → Method Error (ServerConnection q) A
  on_send = on_field (λ s. s.control_send) (λ r s. record s { control_send = r }) quic

  -- A call on `self.quic_conn` that has its own conversions of errors.
  abbrev pub on_conn :
      {A : Type 0} → Method Error q.Connection A → Method Error (ServerConnection q) A
  on_conn m s = ((m s.quic_conn).0, record s { quic_conn = (m s.quic_conn).1 })

abbrev bail_if : {S : Type 0} → Bool → Error → Method Error S (Unit {0})
bail_if b e s = (if b then err e else ok tt, s)

module _ (c : Capnp) where
  -- What `receive_request` does with the bytes of a message.
  unfoldable pub decode_request : List ℕ → Result Error BxpRequest
  decode_request msg_buf = and_then (map_err capnp (c.read_message msg_buf)) λ message_reader.
      and_then (map_err capnp (c.get_request_root message_reader)) λ request.
        and_then (map_err (λ _. invalid_action) (c.get_action request)) λ capnp_action.
          and_then (action_try_from capnp_action) λ action.
            and_then (map_err capnp (c.get_resource_uri request)) λ text.
              and_then (map_err capnp (c.to_string text))
                λ uri. ok (record { req_id = c.get_request_id request; action = action; uri = uri })

  -- The message that `send_response` builds.
  unfoldable pub response_message : ℕ → BxpStatus → c.ResponseMessage
  response_message req_id status =
      c.set_status_code (status_into status) (c.set_response_id req_id c.new_response)

module _ (q : Quic) (c : Capnp) where
  -- The rest of `receive_request`, once the header was read.
  unfoldable pub receive_body : ℕ → Method Error (ServerConnection q) BxpRequest
  receive_body len = do
    bail_if (ltb max_control_msg len) (too_large len)
    msg_buf ← on_recv (q.read_exact len)
    lift (decode_request c msg_buf)

  unfoldable pub receive_request : Method Error (ServerConnection q) BxpRequest
  receive_request = do len_buf ← on_recv (q.read_exact 4); receive_body (from_le_bytes len_buf)

  unfoldable pub send_response : ℕ → BxpStatus → Method Error (ServerConnection q) (Unit {0})
  send_response req_id status = do
    let out_buf = c.write_response (response_message c req_id status) (replicate 4 0)
    lift (map_err capnp out_buf.0)
    on_send (q.write_all (fill_length out_buf.1))

module _ (q : Quic) where
  unfoldable pub send_data_stream : ℕ → q.Source → Method Error (ServerConnection q) (Unit {0})
  send_data_stream req_id reader = on_conn (Stream.send_on q req_id reader)

  unfoldable pub read_data_stream : Method Error (ServerConnection q) (ℕ × q.RecvStream)
  read_data_stream = on_conn (Stream.read_on q)

  -- The reason for which the connection ended is dropped.
  unfoldable pub wait_for_close : ServerConnection q → ServerConnection q
  wait_for_close s = record s { quic_conn = (q.closed s.quic_conn).1 }

-- The outcome of `BxpServer::accept`: the endpoint has stopped, the handshake has failed, the
-- control stream has failed, or a connection. The third is dropped by the call.
pub data Accepted (q : Quic) : Type 0 where
  stopped : Accepted q
  refused : ℕ → Accepted q
  abandoned : q.Connection → Accepted q
  connected : ServerConnection q → Accepted q

module _ (q : Quic) where
  -- What the caller of `accept` gets.
  unfoldable pub returned : Accepted q → Option (ServerConnection q)
  returned (connected s) = some s
  returned _ = none

  unfoldable pub accept_control : Result ℕ (q.SendStream × q.RecvStream) × q.Connection → Accepted q
  accept_control (ok (control_send, control_recv), quic_conn) =
      connected
        (record { quic_conn = quic_conn; control_send = control_send; control_recv = control_recv })
  accept_control (err _, quic_conn) =
      abandoned (q.close 1 (codes "control stream failed") quic_conn)

  unfoldable pub accept_handshake : Result ℕ q.Connection → Accepted q
  accept_handshake (ok quic_conn) = accept_control (q.accept_bi quic_conn)
  accept_handshake (err e) = refused e

  unfoldable pub accept_incoming : Option q.Incoming → Accepted q
  accept_incoming none = stopped
  accept_incoming (some incoming) = accept_handshake (q.handshake incoming)

  unfoldable pub accept : q.Endpoint → Accepted q × q.Endpoint
  accept endpoint = (accept_incoming (q.accept endpoint).0, (q.accept endpoint).1)
