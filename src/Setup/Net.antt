-- ===== src/Setup/Net.antt =====
-- What the set-up of an endpoint calls of std, rustls, rustls-pemfile, rcgen, webpki-roots and
-- quinn, which are not in the repository: the operations as a parameter `Net`, and what the
-- setters of configurations are documented to do as the hypotheses `IsNet`. A foreign error is a
-- number. `install_default` of the crypto provider, whose result is ignored, is left out.
use bxp_core.Base.{ℕ, ◌≡◌, Option, List, Result, ok}
use bxp_core.Base.Str.{Str}
use bxp_core.Quic.{Quic}

pub record Net (q : Quic) : Type 1 where
  pub SocketAddr : Type 0
  pub Cert : Type 0
  pub PrivateKey : Type 0
  pub SelfSigned : Type 0
  pub Verifier : Type 0
  -- `rustls::ServerConfig` and `rustls::ClientConfig`
  pub TlsServer : Type 0
  pub TlsClient : Type 0
  pub Transport : Type 0
  -- `quinn::ServerConfig`, `quinn::ClientConfig` and `quinn::Connecting`
  pub QuicServer : Type 0
  pub QuicClient : Type 0
  pub Connecting : Type 0
  pub parse_addr : Str → Result ℕ SocketAddr
  pub read_file : Str → Result ℕ (List ℕ)
  pub parse_certs : List ℕ → Result ℕ (List Cert)
  pub parse_key : List ℕ → Result ℕ (Option PrivateKey)
  pub with_single_cert : List Cert → PrivateKey → Result ℕ TlsServer
  pub generate_self_signed : List Str → Result ℕ SelfSigned
  pub cert_der : SelfSigned → Cert
  pub to_private_key : SelfSigned → Result ℕ PrivateKey
  pub webpki_verifier : Result ℕ Verifier
  pub with_webpki_verifier : Verifier → TlsClient
  pub with_no_verification : TlsClient
  pub set_server_alpn : List Str → TlsServer → TlsServer
  pub set_client_alpn : List Str → TlsClient → TlsClient
  pub default_transport : Transport
  pub set_keep_alive : Option ℕ → Transport → Transport
  pub set_receive_window : ℕ → Transport → Transport
  pub quic_server : TlsServer → Result ℕ QuicServer
  pub quic_client : TlsClient → Result ℕ QuicClient
  pub set_server_transport : Transport → QuicServer → QuicServer
  pub set_client_transport : Transport → QuicClient → QuicClient
  pub server_endpoint : QuicServer → SocketAddr → Result ℕ q.Endpoint
  pub endpoint_addr : q.Endpoint → Result ℕ SocketAddr
  pub client_endpoint : SocketAddr → Result ℕ q.Endpoint
  pub set_default_client_config : QuicClient → q.Endpoint → q.Endpoint
  pub connect_to : q.Endpoint → SocketAddr → Str → Result ℕ Connecting
  pub established : Connecting → Result ℕ q.Connection

-- What a configuration says, at each stage from the TLS layer to the endpoint.
pub record IsNet {q : Quic} (n : Net q) : Type 0 where
  pub server_alpn : n.TlsServer → List Str
  pub client_alpn : n.TlsClient → List Str
  pub keep_alive : n.Transport → Option ℕ
  pub receive_window : n.Transport → ℕ
  pub server_tls : n.QuicServer → n.TlsServer
  pub client_tls : n.QuicClient → n.TlsClient
  pub server_transport : n.QuicServer → n.Transport
  pub client_transport : n.QuicClient → n.Transport
  -- The configuration for connections that are accepted, and for those that are made.
  pub server_config : q.Endpoint → n.QuicServer
  pub client_config : q.Endpoint → n.QuicClient
  pub alpn-set_server : (p : List Str) (t : n.TlsServer) → server_alpn (n.set_server_alpn p t) ≡ p
  pub alpn-set_client : (p : List Str) (t : n.TlsClient) → client_alpn (n.set_client_alpn p t) ≡ p
  pub keep_alive-set : (k : Option ℕ) (t : n.Transport) → keep_alive (n.set_keep_alive k t) ≡ k
  pub keep_alive-set_window :
      (w : ℕ) (t : n.Transport) → keep_alive (n.set_receive_window w t) ≡ keep_alive t
  pub receive_window-set : (w : ℕ) (t : n.Transport) → receive_window (n.set_receive_window w t) ≡ w
  pub quic_server-tls :
      (t : n.TlsServer) (s : n.QuicServer) → n.quic_server t ≡ ok s → server_tls s ≡ t
  pub quic_client-tls :
      (t : n.TlsClient) (s : n.QuicClient) → n.quic_client t ≡ ok s → client_tls s ≡ t
  pub server_transport-set :
      (t : n.Transport) (s : n.QuicServer) → server_transport (n.set_server_transport t s) ≡ t
  pub client_transport-set :
      (t : n.Transport) (s : n.QuicClient) → client_transport (n.set_client_transport t s) ≡ t
  pub server_tls-set :
      (t : n.Transport) (s : n.QuicServer) → server_tls (n.set_server_transport t s) ≡ server_tls s
  pub client_tls-set :
      (t : n.Transport) (s : n.QuicClient) → client_tls (n.set_client_transport t s) ≡ client_tls s
  pub endpoint-config :
      (s : n.QuicServer) (a : n.SocketAddr) (e : q.Endpoint)
      → n.server_endpoint s a ≡ ok e
      → server_config e ≡ s
  pub endpoint-client_config :
      (s : n.QuicClient) (e : q.Endpoint) → client_config (n.set_default_client_config s e) ≡ s
