-- ===== src/Setup/Success.antt =====
-- When `bind` of src/server.rs and `connect` of src/client.rs succeed, and what they return then.
use bxp_core.Base.{
  ℕ, ◌≡◌, ◌↔◌, refl, sym, ap, Bool, some, ok, err, Result, and_then-ok, map_err, map_err-ok,
}
use bxp_core.Base.Str.{Str, codes}
use bxp_core.Client.{ClientConnection}
use bxp_core.Protocol.{setup, quic}
use bxp_core.Quic.{Quic}
use bxp_core.Setup.{alpn, server_tls, client_tls, transport_config, bind, open_control, connect}
use bxp_core.Setup.Endpoints.{bind_configures, client_config_lem}
use bxp_core.Setup.Net.{Net, IsNet}

module _ {q : Quic} {n : Net q} (spec : IsNet n) where
  -- The steps by which an endpoint comes to listen, and what it offers to a client.
  pub record Listens (insecure : Bool) (addr cert_path key_path : Str) (e : q.Endpoint)
      : Type 0 where
    address : n.SocketAddr
    tls : n.TlsServer
    config : n.QuicServer
    parsed : n.parse_addr addr ≡ ok address
    built : server_tls n insecure cert_path key_path ≡ ok tls
    taken : n.quic_server (n.set_server_alpn alpn tls) ≡ ok config
    bound : n.server_endpoint (n.set_server_transport (transport_config n) config) address ≡ ok e
    offers : spec.server_alpn (spec.server_tls (spec.server_config e)) ≡ alpn
    alive : spec.keep_alive (spec.server_transport (spec.server_config e)) ≡ some 10
    window : spec.receive_window (spec.server_transport (spec.server_config e)) ≡ 100000000

  Listens-bind :
      (insecure : Bool) (addr cert_path key_path : Str) (e : q.Endpoint)
      → bind n insecure addr cert_path key_path ≡ ok e
      → Listens insecure addr cert_path key_path e
  unfolding bind
  Listens-bind insecure addr cert_path key_path e h =
      let (a, r₁, h₁) = and_then-ok (map_err setup (n.parse_addr addr)) _ h in
      let (t, r₂, h₂) = and_then-ok (server_tls n insecure cert_path key_path) _ h₁ in
      let (s, r₃, h₃) =
        and_then-ok (map_err setup (n.quic_server (n.set_server_alpn alpn t))) _ h₂ in
      let pa = map_err-ok setup (n.parse_addr addr) r₁ in
      let ps = map_err-ok setup (n.quic_server (n.set_server_alpn alpn t)) r₃ in
      let pe =
        map_err-ok setup (n.server_endpoint (n.set_server_transport (transport_config n) s) a) h₃ in
      let (_, offers, alive, window) =
        bind_configures spec insecure addr cert_path key_path a t s e pa r₂ ps pe in
      record {
        address = a;
        tls = t;
        config = s;
        parsed = pa;
        built = r₂;
        taken = ps;
        bound = pe;
        offers = offers;
        alive = alive;
        window = window;
      }

  -- `bind` returns an endpoint exactly if the address parses, the TLS configuration can be built,
  -- QUIC accepts it with the protocol `bxp/1` as the only one, and the endpoint is the one that
  -- listens at the address with it; whatever it returns offers exactly the protocol `bxp/1`, is
  -- kept alive every 10 seconds, and allows 100 MB in flight on a stream.
  pub bind-ok_iff :
      (insecure : Bool) (addr cert_path key_path : Str) (e : q.Endpoint)
      → (bind n insecure addr cert_path key_path ≡ ok e)
        ↔ Listens insecure addr cert_path key_path e
  bind-ok_iff insecure addr cert_path key_path e = (
    Listens-bind insecure addr cert_path key_path e,
    λ m.
        (bind_configures spec insecure addr cert_path key_path m.address m.tls m.config e m.parsed
          m.built m.taken m.bound).0,
  )

  -- The steps by which a client comes to be connected, and what it offers to the server.
  pub record Connects (insecure : Bool) (addr server_name : Str) (c : ClientConnection q)
      : Type 0 where
    address : n.SocketAddr
    local : n.SocketAddr
    tls : n.TlsClient
    config : n.QuicClient
    bare : q.Endpoint
    connecting : n.Connecting
    conn : q.Connection
    parsed : n.parse_addr addr ≡ ok address
    built : client_tls n insecure ≡ ok tls
    taken : n.quic_client (n.set_client_alpn alpn tls) ≡ ok config
    parsed_local : n.parse_addr (codes "0.0.0.0:0") ≡ ok local
    bound : n.client_endpoint local ≡ ok bare
    is_endpoint :
        n.set_default_client_config (n.set_client_transport (transport_config n) config) bare
        ≡ c.endpoint
    dialled :
        n.connect_to
          (n.set_default_client_config (n.set_client_transport (transport_config n) config) bare)
          address
          server_name
        ≡ ok connecting
    established : n.established connecting ≡ ok conn
    opened : q.open_bi conn ≡ (ok (c.control_send, c.control_recv), c.quic_conn)
    offers : spec.client_alpn (spec.client_tls (spec.client_config c.endpoint)) ≡ alpn
    alive : spec.keep_alive (spec.client_transport (spec.client_config c.endpoint)) ≡ some 10
    window : spec.receive_window (spec.client_transport (spec.client_config c.endpoint)) ≡ 100000000

  open_control-ok :
      (e : q.Endpoint) (r : Result ℕ (q.SendStream × q.RecvStream) × q.Connection)
      (c : ClientConnection q)
      → open_control n e r ≡ ok c
      → (r ≡ (ok (c.control_send, c.control_recv), c.quic_conn)) × (e ≡ c.endpoint)
  unfolding open_control
  open_control-ok e (ok (send, recv), conn) c h =
      let same : record { quic_conn = conn; control_send = send; control_recv = recv; endpoint = e }
          ≡ c =
        cc h in
      rw (sym same) (refl, refl)
  open_control-ok e (err x, conn) c h = absurd (cc h)

  Connects-connect :
      (insecure : Bool) (addr server_name : Str) (c : ClientConnection q)
      → connect n insecure addr server_name ≡ ok c
      → Connects insecure addr server_name c
  unfolding connect
  Connects-connect insecure addr server_name c h =
      let (a, r₁, h₁) = and_then-ok (map_err setup (n.parse_addr addr)) _ h in
      let (t, r₂, h₂) = and_then-ok (client_tls n insecure) _ h₁ in
      let (s, r₃, h₃) =
        and_then-ok (map_err setup (n.quic_client (n.set_client_alpn alpn t))) _ h₂ in
      let (local, r₄, h₄) = and_then-ok (map_err setup (n.parse_addr (codes "0.0.0.0:0"))) _ h₃ in
      let (bare, r₅, h₅) = and_then-ok (map_err setup (n.client_endpoint local)) _ h₄ in
      let e = n.set_default_client_config (n.set_client_transport (transport_config n) s) bare in
      let (k, r₆, h₆) = and_then-ok (map_err setup (n.connect_to e a server_name)) _ h₅ in
      let (conn, r₇, h₇) = and_then-ok (map_err quic (n.established k)) _ h₆ in
      let (opened, same) = open_control-ok e (q.open_bi conn) c h₇ in
      let taken = map_err-ok setup (n.quic_client (n.set_client_alpn alpn t)) r₃ in
      let (offers, alive, window) = client_config_lem spec t s bare taken in
      record {
        address = a;
        local = local;
        tls = t;
        config = s;
        bare = bare;
        connecting = k;
        conn = conn;
        parsed = map_err-ok setup (n.parse_addr addr) r₁;
        built = r₂;
        taken = taken;
        parsed_local = map_err-ok setup (n.parse_addr (codes "0.0.0.0:0")) r₄;
        bound = map_err-ok setup (n.client_endpoint local) r₅;
        is_endpoint = same;
        dialled = map_err-ok setup (n.connect_to e a server_name) r₆;
        established = map_err-ok quic (n.established k) r₇;
        opened = opened;
        offers = rw (sym same) offers;
        alive = rw (sym same) alive;
        window = rw (sym same) window;
      }

  connect-Connects :
      (insecure : Bool) (addr server_name : Str) (c : ClientConnection q)
      → Connects insecure addr server_name c
      → connect n insecure addr server_name ≡ ok c
  unfolding connect open_control
  connect-Connects insecure addr server_name c m = rw (m.parsed) (
      rw (m.built) (
        rw (m.taken) (
          rw (m.parsed_local) (
            rw (m.bound) (
              rw (m.dialled) (
                rw (m.established)
                  (rw (m.opened) (ap (λ e. ok (record c { endpoint = e })) m.is_endpoint))))))))

  -- `connect` returns a connection exactly if the address parses, the TLS configuration can be
  -- built, QUIC accepts it with the protocol `bxp/1` as the only one, the endpoint is the one bound
  -- at any free port with it, the connection is the one that it establishes to the address under
  -- the server's name, and the control stream is the one that the client opens on it; whatever it
  -- returns offers exactly the protocol `bxp/1`, is kept alive every 10 seconds, and allows 100 MB
  -- in flight on a stream.
  pub connect-ok_iff :
      (insecure : Bool) (addr server_name : Str) (c : ClientConnection q)
      → (connect n insecure addr server_name ≡ ok c) ↔ Connects insecure addr server_name c
  connect-ok_iff insecure addr server_name c =
      (Connects-connect insecure addr server_name c, connect-Connects insecure addr server_name c)
