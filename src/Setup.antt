-- ===== src/Setup.antt =====
-- Setting up an endpoint: `BxpServer::bind`, `build_server_tls` and `local_addr` of src/server.rs,
-- `BxpClient::connect`, `build_tls_config` and `NoCertVerification` of src/client.rs. The Cargo
-- feature `tls-insecure` chooses between two definitions of a function, which are both here.
pub mod Net
pub mod ServerTls
pub mod Endpoints
pub mod Success
use bxp_core.Base.{
  ℕ, Bool, true, false, Option, some, none, List, [], ◌∷◌, Result, ok, err, map_err, and_then,
}
use bxp_core.Base.Str.{Str, codes}
use bxp_core.Client.{ClientConnection}
use bxp_core.Protocol.{
  Error, setup, quic, cert_read, key_read, cert_parse, key_parse, no_certs, no_key,
}
use bxp_core.Quic.{Quic}

-- `b"bxp/1"`, the one protocol that both ends offer.
abbrev pub alpn : List Str
alpn = codes "bxp/1" ∷ []

-- `SignatureScheme`, as far as `supported_verify_schemes` names it.
pub data SignatureScheme : Type 0 where
  rsa_pkcs1_sha256 ecdsa_nistp256_sha256 ed25519 : SignatureScheme

-- The assertions that `NoCertVerification` returns for every certificate and signature.
pub data Assertion : Type 0 where
  server_cert_verified handshake_signature_valid : Assertion

unfoldable pub verify_server_cert :
    {Cert Name Time : Type 0} → Cert → List Cert → Name → List ℕ → Time → Result Error Assertion
verify_server_cert end_entity intermediates server_name ocsp_response now = ok server_cert_verified

module _ {Cert Signature : Type 0} where
  unfoldable pub verify_tls12_signature : List ℕ → Cert → Signature → Result Error Assertion
  verify_tls12_signature message cert dss = ok handshake_signature_valid

  unfoldable pub verify_tls13_signature : List ℕ → Cert → Signature → Result Error Assertion
  verify_tls13_signature message cert dss = ok handshake_signature_valid

unfoldable pub supported_verify_schemes : List SignatureScheme
supported_verify_schemes = rsa_pkcs1_sha256 ∷ (ecdsa_nistp256_sha256 ∷ (ed25519 ∷ []))

module _ {q : Quic} (n : Net.Net q) where
  -- `certs.is_empty()` and the message for it.
  unfoldable pub check_certs : Str → List n.Cert → Result Error (List n.Cert)
  check_certs cert_path [] = err (no_certs cert_path)
  check_certs cert_path (x ∷ xs) = ok (x ∷ xs)

  -- `.ok_or_else(…)` on the private key.
  unfoldable pub check_key : Str → Option n.PrivateKey → Result Error n.PrivateKey
  check_key key_path none = err (no_key key_path)
  check_key key_path (some key) = ok key

  -- `build_server_tls` without the feature.
  unfoldable pub build_server_tls : Str → Str → Result Error n.TlsServer
  build_server_tls cert_path key_path =
      and_then (map_err (cert_read cert_path) (n.read_file cert_path)) λ cert_pem.
        and_then (map_err (key_read key_path) (n.read_file key_path)) λ key_pem.
          and_then (map_err cert_parse (n.parse_certs cert_pem)) λ parsed.
            and_then (check_certs cert_path parsed) λ certs.
              and_then (map_err key_parse (n.parse_key key_pem)) λ found.
                and_then (check_key key_path found)
                  λ key. map_err setup (n.with_single_cert certs key)

  -- `build_server_tls` with the feature `tls-insecure`, which ignores both paths.
  unfoldable pub build_server_tls_insecure : Str → Str → Result Error n.TlsServer
  build_server_tls_insecure cert_path key_path =
      and_then (map_err setup (n.generate_self_signed (codes "localhost" ∷ []))) λ cert.
        and_then (map_err setup (n.to_private_key cert))
          λ priv_key. map_err setup (n.with_single_cert (n.cert_der cert ∷ []) priv_key)

  unfoldable pub server_tls : Bool → Str → Str → Result Error n.TlsServer
  server_tls false = build_server_tls
  server_tls true = build_server_tls_insecure

  -- The transport configuration that both ends build, in the order of the source.
  unfoldable pub transport_config : n.Transport
  transport_config = n.set_receive_window 100000000 (n.set_keep_alive (some 10) n.default_transport)

  unfoldable pub bind : Bool → Str → Str → Str → Result Error q.Endpoint
  bind insecure addr cert_path key_path =
      and_then (map_err setup (n.parse_addr addr)) λ socket_addr.
        and_then (server_tls insecure cert_path key_path) λ server_crypto.
          and_then (map_err setup (n.quic_server (n.set_server_alpn alpn server_crypto)))
            λ server_config. map_err setup (
              n.server_endpoint (n.set_server_transport transport_config server_config) socket_addr)

  unfoldable pub local_addr : q.Endpoint → Result Error n.SocketAddr
  local_addr endpoint = map_err setup (n.endpoint_addr endpoint)

  -- `build_tls_config` without the feature: the Mozilla roots.
  unfoldable pub build_tls_config : Result Error n.TlsClient
  build_tls_config =
      and_then (map_err setup n.webpki_verifier) λ verifier. ok (n.with_webpki_verifier verifier)

  -- `build_tls_config` with the feature `tls-insecure`: `NoCertVerification`.
  unfoldable pub build_tls_config_insecure : Result Error n.TlsClient
  build_tls_config_insecure = ok n.with_no_verification

  unfoldable pub client_tls : Bool → Result Error n.TlsClient
  client_tls false = build_tls_config
  client_tls true = build_tls_config_insecure

  -- The end of `connect`: the control stream is opened by the client.
  unfoldable pub open_control :
      q.Endpoint
      → Result ℕ (q.SendStream × q.RecvStream) × q.Connection
      → Result Error (ClientConnection q)
  open_control endpoint (ok (control_send, control_recv), quic_conn) = ok (record {
    quic_conn = quic_conn;
    control_send = control_send;
    control_recv = control_recv;
    endpoint = endpoint;
  })
  open_control endpoint (err e, quic_conn) = err (quic e)

  unfoldable pub connect : Bool → Str → Str → Result Error (ClientConnection q)
  connect insecure addr server_name = and_then (map_err setup (n.parse_addr addr)) λ socket_addr.
      and_then (client_tls insecure) λ client_crypto.
        and_then (map_err setup (n.quic_client (n.set_client_alpn alpn client_crypto)))
          λ client_config. and_then (map_err setup (n.parse_addr (codes "0.0.0.0:0"))) λ local.
            and_then (map_err setup (n.client_endpoint local)) λ bare.
              let endpoint =
                n.set_default_client_config (n.set_client_transport transport_config client_config)
                  bare in
              and_then (map_err setup (n.connect_to endpoint socket_addr server_name)) λ connecting.
                and_then (map_err quic (n.established connecting))
                  λ quic_conn. open_control endpoint (q.open_bi quic_conn)
