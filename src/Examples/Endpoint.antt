-- ===== src/Examples/Endpoint.antt =====
-- Examples for the set-up of endpoints and for `accept`, over a host in memory whose
-- configurations are what was set in them.
use bxp_core.Base.{
  ℕ, ◌≡◌, ◌↔◌, ◌⊎◌, refl, false, Option, none, some, List, [], ◌∷◌, Result, ok, err, ltb,
  if◌then◌else◌, arith,
}
use bxp_core.Base.Str.{Str, codes}
use bxp_core.Examples.{link}
use bxp_core.Quic.{Quic}
use bxp_core.Quic.Memory.{memory, memory-IsQuic, fresh, Link, Sender}
use bxp_core.Server.{abandoned, returned, accept}
use bxp_core.Server.Accept.{accept_settles}
use bxp_core.Setup.{
  alpn, build_server_tls, check_certs, check_key, server_tls, client_tls, build_tls_config,
  transport_config, bind, open_control, connect,
}
use bxp_core.Client.{ClientConnection}
use bxp_core.Setup.Success.{Listens, Connects, bind-ok_iff, connect-ok_iff}
use bxp_core.Setup.Net.{Net, IsNet}
use bxp_core.Setup.ServerTls.{Material, build_server_tls-ok_iff}

pub record Knobs : Type 0 where
  keep_alive : Option ℕ
  window : ℕ

pub record Config : Type 0 where
  protocols : List Str
  knobs : Knobs

pub record Host : Type 0 where
  listening : Config
  dialling : Config

abbrev plain_config : Config
plain_config = record { protocols = []; knobs = record { keep_alive = none; window = 0 } }

abbrev pub hosts : Quic
hosts = record memory { Endpoint = Host; accept = λ e. (none, e); wait_idle = λ e. e }

-- Files and addresses: the empty path has no file, the empty text is no address.
abbrev read_file : Str → Result ℕ (List ℕ)
read_file [] = err 2
read_file (x ∷ path) = ok (x ∷ path)

abbrev parse_addr : Str → Result ℕ Str
parse_addr [] = err 1
parse_addr (x ∷ s) = ok (x ∷ s)

-- A byte below 128 is a certificate.
abbrev parse_certs : List ℕ → List ℕ
parse_certs [] = []
parse_certs (x ∷ xs) = if ltb x 128 then x ∷ parse_certs xs else parse_certs xs

abbrev parse_key : List ℕ → Option ℕ
parse_key [] = none
parse_key (x ∷ xs) = some x

abbrev pub net : Net hosts
net = record {
  SocketAddr = Str;
  Cert = ℕ;
  PrivateKey = ℕ;
  SelfSigned = ℕ;
  Verifier = ℕ;
  TlsServer = List Str;
  TlsClient = List Str;
  Transport = Knobs;
  QuicServer = Config;
  QuicClient = Config;
  Connecting = Host;
  parse_addr = parse_addr;
  read_file = read_file;
  parse_certs = λ pem. ok (parse_certs pem);
  parse_key = λ pem. ok (parse_key pem);
  with_single_cert = λ certs key. ok [];
  generate_self_signed = λ names. ok 1;
  cert_der = λ c. c;
  to_private_key = λ c. ok c;
  webpki_verifier = ok 1;
  with_webpki_verifier = λ v. [];
  with_no_verification = [];
  set_server_alpn = λ p t. p;
  set_client_alpn = λ p t. p;
  default_transport = record { keep_alive = none; window = 0 };
  set_keep_alive = λ k t. record t { keep_alive = k };
  set_receive_window = λ w t. record t { window = w };
  quic_server = λ t. ok (record { protocols = t; knobs = plain_config.knobs });
  quic_client = λ t. ok (record { protocols = t; knobs = plain_config.knobs });
  set_server_transport = λ t s. record s { knobs = t };
  set_client_transport = λ t s. record s { knobs = t };
  server_endpoint = λ s a. ok (record { listening = s; dialling = plain_config });
  endpoint_addr = λ e. ok (codes "0.0.0.0:1");
  client_endpoint = λ a. ok (record { listening = plain_config; dialling = plain_config });
  set_default_client_config = λ s e. record e { dialling = s };
  connect_to = λ e a name. ok e;
  established = λ c. ok (link []);
}

tls_kept : (t : List Str) (s : Config) → net.quic_server t ≡ ok s → s.protocols ≡ t
tls_kept t s h = cc

config_kept : (s : Config) (a : Str) (e : Host) → net.server_endpoint s a ≡ ok e → e.listening ≡ s
config_kept s a e h = ground arith

net-IsNet : IsNet net
net-IsNet = record {
  server_alpn = λ t. t;
  client_alpn = λ t. t;
  keep_alive = λ t. t.keep_alive;
  receive_window = λ t. t.window;
  server_tls = λ s. s.protocols;
  client_tls = λ s. s.protocols;
  server_transport = λ s. s.knobs;
  client_transport = λ s. s.knobs;
  server_config = λ e. e.listening;
  client_config = λ e. e.dialling;
  alpn-set_server = λ p t. refl;
  alpn-set_client = λ p t. refl;
  keep_alive-set = λ k t. refl;
  keep_alive-set_window = λ w t. refl;
  receive_window-set = λ w t. refl;
  quic_server-tls = tls_kept;
  quic_client-tls = tls_kept;
  server_transport-set = λ t s. refl;
  client_transport-set = λ t s. refl;
  server_tls-set = λ t s. refl;
  client_tls-set = λ t s. refl;
  endpoint-config = config_kept;
  endpoint-client_config = λ s e. refl;
}

build_server_tls-ok_iff_example :
    (build_server_tls net (codes "a") (codes "b") ≡ ok []) ↔ Material net (codes "a") (codes "b") []
build_server_tls-ok_iff_example = build_server_tls-ok_iff net (codes "a") (codes "b") []

abbrev here : Str
here = codes "127.0.0.1:1"

abbrev listening : Host
listening = record {
  listening = record {
    protocols = alpn;
    knobs = record { keep_alive = some 10; window = 100000000 };
  };
  dialling = plain_config;
}

bind-ok_iff_example :
    (bind net false here (codes "a") (codes "b") ≡ ok listening)
    ↔ Listens net-IsNet false here (codes "a") (codes "b") listening
bind-ok_iff_example = bind-ok_iff net-IsNet false here (codes "a") (codes "b") listening

-- That endpoint is what `bind` returns here.
bind_run : bind net false here (codes "a") (codes "b") ≡ ok listening
unfolding bind server_tls build_server_tls check_certs check_key transport_config
bind_run = refl

abbrev dialling : Host
dialling = record {
  listening = plain_config;
  dialling = record {
    protocols = alpn;
    knobs = record { keep_alive = some 10; window = 100000000 };
  };
}

abbrev connected : ClientConnection hosts
connected = record {
  quic_conn = link [];
  control_send = fresh;
  control_recv = [];
  endpoint = dialling;
}

connect-ok_iff_example :
    (connect net false here (codes "localhost") ≡ ok connected)
    ↔ Connects net-IsNet false here (codes "localhost") connected
connect-ok_iff_example = connect-ok_iff net-IsNet false here (codes "localhost") connected

connect_run : connect net false here (codes "localhost") ≡ ok connected
unfolding connect open_control client_tls build_tls_config transport_config
connect_run = refl

-- One client whose handshake succeeds, in the transport in memory.
accept_settles_example :
    ((send : Sender) × (recv : List ℕ) × ((memory.accept_bi (link [])).0 ≡ ok (send, recv))
      × (returned memory (accept memory (some (link []) ∷ [])).0
          ≡ some (record { quic_conn = link []; control_send = send; control_recv = recv })))
    ⊎ ((code : ℕ) × ((memory.accept_bi (link [])).0 ≡ err code)
        × (d : Link) × ((accept memory (some (link []) ∷ [])).0 ≡ abandoned d)
        × (returned memory (accept memory (some (link []) ∷ [])).0 ≡ none)
        × (d.closed_with ≡ some (1, codes "control stream failed")))
unfolding memory-IsQuic
accept_settles_example =
    accept_settles memory-IsQuic (some (link []) ∷ []) (some (link [])) (link []) refl refl
