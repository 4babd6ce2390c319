-- ===== src/Setup/Endpoints.antt =====
-- What `bind` of src/server.rs and `connect` of src/client.rs configure.
use bxp_core.Base.{◌≡◌, ap, ◌∙◌, Bool, some, ok}
use bxp_core.Base.Str.{Str}
use bxp_core.Quic.{Quic}
use bxp_core.Setup.{alpn, server_tls, transport_config, bind}
use bxp_core.Setup.Net.{Net, IsNet}

module _ {q : Quic} {n : Net q} (spec : IsNet n) where
  -- Both ends keep a connection alive every 10 seconds and allow 100 MB in flight on a stream.
  transport_config_lem :
      (spec.keep_alive (transport_config n) ≡ some 10)
      × (spec.receive_window (transport_config n) ≡ 100000000)
  unfolding transport_config
  transport_config_lem = (
    spec.keep_alive-set_window 100000000 (n.set_keep_alive (some 10) n.default_transport)
        ∙ spec.keep_alive-set (some 10) n.default_transport,
    spec.receive_window-set 100000000 (n.set_keep_alive (some 10) n.default_transport),
  )

  -- If the address parses, the TLS configuration can be built, and QUIC accepts it and can listen
  -- at the address, `bind` returns that endpoint; what it accepts offers exactly the protocol
  -- `bxp/1`, is kept alive every 10 seconds, and allows 100 MB in flight on a stream.
  pub bind_configures :
      (insecure : Bool) (addr cert_path key_path : Str) (a : n.SocketAddr) (t : n.TlsServer)
      (s : n.QuicServer) (e : q.Endpoint)
      → n.parse_addr addr ≡ ok a
      → server_tls n insecure cert_path key_path ≡ ok t
      → n.quic_server (n.set_server_alpn alpn t) ≡ ok s
      → n.server_endpoint (n.set_server_transport (transport_config n) s) a ≡ ok e
      → (bind n insecure addr cert_path key_path ≡ ok e)
        × (spec.server_alpn (spec.server_tls (spec.server_config e)) ≡ alpn)
        × (spec.keep_alive (spec.server_transport (spec.server_config e)) ≡ some 10)
        × (spec.receive_window (spec.server_transport (spec.server_config e)) ≡ 100000000)
  unfolding bind
  bind_configures insecure addr cert_path key_path a t s e pa pt ps pe =
      let config = spec.endpoint-config (n.set_server_transport (transport_config n) s) a e pe in
      let transport =
        ap spec.server_transport config ∙ spec.server_transport-set (transport_config n) s in
      (
        rw pa (rw pt (rw ps (rw pe))),
        ap (λ k. spec.server_alpn (spec.server_tls k)) config
            ∙ ap spec.server_alpn (
                spec.server_tls-set (transport_config n) s
                ∙ spec.quic_server-tls (n.set_server_alpn alpn t) s ps)
            ∙ spec.alpn-set_server alpn t,
        ap spec.keep_alive transport ∙ transport_config_lem.0,
        ap spec.receive_window transport ∙ transport_config_lem.1,
      )

  -- The configuration of the endpoint that `connect` dials from.
  pub client_config_lem :
      (t : n.TlsClient) (s : n.QuicClient) (bare : q.Endpoint)
      → n.quic_client (n.set_client_alpn alpn t) ≡ ok s
      → let e = n.set_default_client_config (n.set_client_transport (transport_config n) s) bare in
        (spec.client_alpn (spec.client_tls (spec.client_config e)) ≡ alpn)
        × (spec.keep_alive (spec.client_transport (spec.client_config e)) ≡ some 10)
        × (spec.receive_window (spec.client_transport (spec.client_config e)) ≡ 100000000)
  client_config_lem t s bare ps =
      let config =
        spec.endpoint-client_config (n.set_client_transport (transport_config n) s) bare in
      let transport =
        ap spec.client_transport config ∙ spec.client_transport-set (transport_config n) s in
      (
        ap (λ r. spec.client_alpn (spec.client_tls r)) config
            ∙ ap spec.client_alpn (
                spec.client_tls-set (transport_config n) s
                ∙ spec.quic_client-tls (n.set_client_alpn alpn t) s ps)
            ∙ spec.alpn-set_client alpn t,
        ap spec.keep_alive transport ∙ transport_config_lem.0,
        ap spec.receive_window transport ∙ transport_config_lem.1,
      )
