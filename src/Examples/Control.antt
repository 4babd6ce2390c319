-- ===== src/Examples/Control.antt =====
-- Examples for the control stream: single requests and responses.
use bxp_core.Base.{◌≡◌, ◌↔◌, refl, ◌++◌, true, false, [], ◌∷◌, ok, err, arith}
use bxp_core.Base.Bytes.{to_le_bytes}
use bxp_core.Capnp.Plain.{plain, plain-IsCapnp}
use bxp_core.Client.{receive_response}
use bxp_core.Client.Decode.{IsUnderstood, receive_response-ok_iff}
use bxp_core.Client.Receive as ClientReceive
use bxp_core.Exchange.Oversized.{receive_request_oversized}
use bxp_core.Exchange.Request.{receive_request-frame}
use bxp_core.Exchange.Response.{response_payload, send_response-frame, receive_response-frame}
use bxp_core.Examples.{
  server_at, client_at, ping, pong, ping_bytes, pong_bytes, ping-IsSendable, pong-IsReply,
}
use bxp_core.Frame.{frame}
use bxp_core.Frame.Reading.{next_frame, next_unlimited}
use bxp_core.Protocol.{BxpStatus, too_large}
use bxp_core.Quic.Memory.{memory, memory-IsQuic}
use bxp_core.Server.{max_control_msg, receive_request, send_response}
use bxp_core.Server.Decode.{IsAccepted, receive_request-ok_iff}
use bxp_core.Server.Receive

receive_request-frame_example :
    ((receive_request memory plain (server_at (ping_bytes ++ (1 ∷ [])))).0 ≡ ok ping)
    × (memory-IsQuic.pending
          (receive_request memory plain (server_at (ping_bytes ++ (1 ∷ [])))).1.control_recv
        ≡ 1 ∷ [])
unfolding memory-IsQuic
receive_request-frame_example =
    receive_request-frame memory-IsQuic plain-IsCapnp (server_at (ping_bytes ++ (1 ∷ []))) ping
      (1 ∷ []) ping-IsSendable refl

receive_request-Receives_example :
    Receive.Receives memory-IsQuic plain
      (next_frame max_control_msg (memory-IsQuic.pending (server_at ping_bytes).control_recv))
      (receive_request memory plain (server_at ping_bytes)).0
      (receive_request memory plain (server_at ping_bytes)).1
receive_request-Receives_example =
    Receive.receive_request-Receives memory-IsQuic plain (server_at ping_bytes)

send_response-frame_example :
    let (res, t) = send_response memory plain 100 BxpStatus.success (server_at []) in
    (res ≡ ok tt)
    × (memory-IsQuic.written t.control_send
        ≡ memory-IsQuic.written (server_at []).control_send
          ++ frame (response_payload plain-IsCapnp pong))
    × (memory-IsQuic.healthy t.control_send ≡ true)
    × (memory-IsQuic.finished t.control_send ≡ false)
    × (t.control_recv ≡ (server_at []).control_recv)
    × (t.quic_conn ≡ (server_at []).quic_conn)
unfolding memory-IsQuic
send_response-frame_example =
    send_response-frame memory-IsQuic plain-IsCapnp (server_at []) pong pong-IsReply refl refl

receive_response-frame_example :
    ((receive_response memory plain (client_at (pong_bytes ++ []))).0 ≡ ok pong)
    × (memory-IsQuic.pending
          (receive_response memory plain (client_at (pong_bytes ++ []))).1.control_recv
        ≡ [])
unfolding memory-IsQuic
receive_response-frame_example =
    receive_response-frame memory-IsQuic plain-IsCapnp (client_at (pong_bytes ++ [])) pong []
      pong-IsReply refl

receive_request_oversized_example :
    let s = server_at (to_le_bytes 1048577 ++ (ping_bytes ++ [])) in
    let (res, t) = receive_request memory plain s in
    (res ≡ err (too_large 1048577))
    × (t.quic_conn ≡ s.quic_conn)
    × ((receive_request memory plain t).0 ≡ ok ping)
    × (memory-IsQuic.pending (receive_request memory plain t).1.control_recv ≡ [])
unfolding memory-IsQuic
receive_request_oversized_example =
    receive_request_oversized memory-IsQuic plain-IsCapnp
      (server_at (to_le_bytes 1048577 ++ (ping_bytes ++ []))) 1048577 ping [] (omega arith)
      (omega arith) ping-IsSendable refl

receive_response-Receives_example :
    ClientReceive.Receives memory-IsQuic plain
      (next_unlimited (memory-IsQuic.pending (client_at (4 ∷ [])).control_recv))
      (receive_response memory plain (client_at (4 ∷ []))).0
      (receive_response memory plain (client_at (4 ∷ []))).1
receive_response-Receives_example =
    ClientReceive.receive_response-Receives memory-IsQuic plain (client_at (4 ∷ []))

receive_request-ok_iff_example :
    ((receive_request memory plain (server_at ping_bytes)).0 ≡ ok ping)
    ↔ IsAccepted memory-IsQuic plain (next_frame max_control_msg ping_bytes) ping
unfolding memory-IsQuic
receive_request-ok_iff_example =
    receive_request-ok_iff memory-IsQuic plain (server_at ping_bytes) ping

receive_response-ok_iff_example :
    ((receive_response memory plain (client_at pong_bytes)).0 ≡ ok pong)
    ↔ IsUnderstood memory-IsQuic plain (next_unlimited pong_bytes) pong
unfolding memory-IsQuic
receive_response-ok_iff_example =
    receive_response-ok_iff memory-IsQuic plain (client_at pong_bytes) pong
