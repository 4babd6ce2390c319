-- ===== src/Examples/Programs.antt =====
-- Examples for the whole programs.
use bxp_core.Base.{
  ℕ, ◌≡◌, refl, sym, Bool, true, false, Option, none, some, [], ◌∷◌, List, Result, ok, err, arith,
}
use bxp_core.Base.Str.{Str, codes}
use bxp_core.Capnp.Plain.{plain, plain-IsCapnp}
use bxp_core.Client.{ClientConnection}
use bxp_core.Examples.{link, whole}
use bxp_core.Examples.Endpoint.{net}
use bxp_core.Examples.Health.{health_check-AllServable}
use bxp_core.Exchange.Script.{request_frames, reply_frames}
use bxp_core.Protocol.{cert_read, Error}
use bxp_core.Quic.{Quic, IsQuic}
use bxp_core.Quic.Memory.{memory, memory-IsQuic, fresh, Link}
use bxp_core.Server.{
  ServerConnection, accept, returned, accept_incoming, accept_handshake, accept_control,
}
use bxp_core.Session.Accepting.{Accepts}
use bxp_core.Session.Benchmark.Library.{Std}
use bxp_core.Session.Handlers.{ping_status}
use bxp_core.Session.Health.{health_check, written-ask_health, connection_task-output}
use bxp_core.Session.Integration.{test_router_ping_and_404, test_data_stream_transfer}
use bxp_core.Session.Integration.Passes.{nothing_without_insecure}
use bxp_core.Session.Programs.{health_main, movie_main, benchmark_main, health_program}
use bxp_core.Setup.{
  bind, connect, server_tls, build_server_tls_insecure, transport_config, open_control, client_tls,
  build_tls_config_insecure,
}
use bxp_core.Setup.Net.{Net}

-- A clock that stands still, for a client that never gets to read it.
abbrev stopped : Std
stopped = record { Clock = ℕ; now = λ t. (t, t); sort = λ xs. xs }

nothing_without_insecure_example :
    (health_main net plain 2 2 false ≡ err (cert_read [] 2))
    × (movie_main net plain 2 2 whole false ≡ err (cert_read [] 2))
    × (benchmark_main net plain 2 2 stopped 10 0 false ≡ err (cert_read [] 2))
    × (test_router_ping_and_404 net (λ s. s) plain 2 false ≡ err (cert_read [] 2))
    × (test_data_stream_transfer net (λ s. s) plain 2 whole false ≡ err (cert_read [] 2))
nothing_without_insecure_example =
    nothing_without_insecure net (λ s. s) plain 2 2 whole stopped 10 0 (codes "127.0.0.1:4433")
      (codes "127.0.0.1:4434") (codes "127.0.0.1:4435") (codes "127.0.0.1:0") 2 refl refl refl refl
      refl

-- The transport in memory, with a control stream that brings the request to the server and the
-- response to the client.
abbrev asked : List ℕ
asked = request_frames plain-IsCapnp (health_check ∷ [])

abbrev answered : List ℕ
answered = reply_frames plain-IsCapnp (ping_status (codes "bxp://health")) (health_check ∷ [])

abbrev wired : Quic
wired = record memory {
  open_bi = λ c. (ok (fresh, answered), c);
  accept_bi = λ c. (ok (fresh, asked), c);
}

unfoldable wired-IsQuic : IsQuic wired
unfolding memory-IsQuic
wired-IsQuic = record {
  written = memory-IsQuic.written;
  finished = memory-IsQuic.finished;
  healthy = memory-IsQuic.healthy;
  pending = memory-IsQuic.pending;
  clean = memory-IsQuic.clean;
  yields = memory-IsQuic.yields;
  fails = memory-IsQuic.fails;
  alive = memory-IsQuic.alive;
  incoming = memory-IsQuic.incoming;
  whole = memory-IsQuic.whole;
  delivered = memory-IsQuic.delivered;
  closed_with = memory-IsQuic.closed_with;
  write_all-healthy = memory-IsQuic.write_all-healthy;
  read_exact-enough = memory-IsQuic.read_exact-enough;
  read_exact-short = memory-IsQuic.read_exact-short;
  read_exact-clean = memory-IsQuic.read_exact-clean;
  copy_in-clean = memory-IsQuic.copy_in-clean;
  finish-healthy = memory-IsQuic.finish-healthy;
  copy-healthy = memory-IsQuic.copy-healthy;
  copy-fails = memory-IsQuic.copy-fails;
  open_uni-alive = memory-IsQuic.open_uni-alive;
  open_uni-keeps = memory-IsQuic.open_uni-keeps;
  accept_uni-next = memory-IsQuic.accept_uni-next;
  accept_uni-whole = memory-IsQuic.accept_uni-whole;
  drop_send-healthy = memory-IsQuic.drop_send-healthy;
  drop_recv-keeps = memory-IsQuic.drop_recv-keeps;
  drop_recv-whole = memory-IsQuic.drop_recv-whole;
  close-records = memory-IsQuic.close-records;
}

-- One client is on its way to every endpoint that listens.
abbrev loopback : Net wired
loopback = record {
  SocketAddr = Str;
  Cert = ℕ;
  PrivateKey = ℕ;
  SelfSigned = ℕ;
  Verifier = ℕ;
  TlsServer = List Str;
  TlsClient = List Str;
  Transport = ℕ;
  QuicServer = List Str;
  QuicClient = List Str;
  Connecting = ℕ;
  parse_addr = λ s. ok s;
  read_file = λ s. err 2;
  parse_certs = λ pem. ok [];
  parse_key = λ pem. ok none;
  with_single_cert = λ certs key. ok [];
  generate_self_signed = λ names. ok 1;
  cert_der = λ c. c;
  to_private_key = λ c. ok c;
  webpki_verifier = ok 1;
  with_webpki_verifier = λ v. [];
  with_no_verification = [];
  set_server_alpn = λ p t. p;
  set_client_alpn = λ p t. p;
  default_transport = 0;
  set_keep_alive = λ k t. t;
  set_receive_window = λ w t. t;
  quic_server = λ t. ok t;
  quic_client = λ t. ok t;
  set_server_transport = λ t s. s;
  set_client_transport = λ t s. s;
  server_endpoint = λ s a. ok (some (link []) ∷ []);
  endpoint_addr = λ e. ok (codes "127.0.0.1:4433");
  client_endpoint = λ a. ok [];
  set_default_client_config = λ s e. e;
  connect_to = λ e a name. ok 1;
  established = λ c. ok (link []);
}

abbrev checking : ClientConnection wired
checking = record {
  quic_conn = link [];
  control_send = fresh;
  control_recv = answered;
  endpoint = [];
}

abbrev accepted : ServerConnection wired
accepted = record { quic_conn = link []; control_send = fresh; control_recv = asked }

bound : bind loopback true (codes "127.0.0.1:4433") [] [] ≡ ok (some (link []) ∷ [])
unfolding bind server_tls build_server_tls_insecure transport_config
bound = refl

dialled : connect loopback true (codes "127.0.0.1:4433") (codes "localhost") ≡ ok checking
unfolding connect open_control client_tls build_tls_config_insecure transport_config
dialled = refl

one_client : Accepts wired (some (link []) ∷ []) (accepted ∷ []) []
unfolding returned accept accept_incoming accept_handshake accept_control
one_client = Accepts.next refl Accepts.nobody

no_more : returned wired (accept wired []).0 ≡ none
unfolding returned accept accept_incoming
no_more = refl

health_program_example :
    (t : ServerConnection wired) × (r : Result Error Bool × (Link × List (Option Link)))
    × (health_main loopback plain 2 2 true ≡ ok (some (some t ∷ []), r))
    × (r.0 ≡ ok true)
    × (r.1.0.closed_with ≡ some (0, codes "Done"))
unfolding wired-IsQuic memory-IsQuic
health_program_example =
    health_program loopback wired-IsQuic plain-IsCapnp 2 2 true (some (link []) ∷ []) [] checking
      accepted bound dialled one_client no_more health_check-AllServable (refl, refl) (refl, refl)
      refl refl
      (sym (
        written-ask_health wired-IsQuic plain-IsCapnp checking health_check-AllServable
          (refl, refl)))
      (sym
        (connection_task-output wired-IsQuic plain-IsCapnp 2 accepted health_check-AllServable
          (refl, refl) refl refl (omega arith)).1)
      (omega arith) (omega arith)
