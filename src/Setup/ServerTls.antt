-- ===== src/Setup/ServerTls.antt =====
-- `build_server_tls` of src/server.rs without the feature `tls-insecure`.
use bxp_core.Base.{
  ℕ, ◌≡◌, ◌≢◌, ◌↔◌, refl, some, none, List, [], ◌∷◌, ok, Option, and_then-ok, map_err-ok, map_err,
  ap, ◌∙◌,
}
use bxp_core.Base.Str.{Str}
use bxp_core.Protocol.{setup, cert_read, key_read, cert_parse, key_parse}
use bxp_core.Quic.{Quic}
use bxp_core.Setup.{build_server_tls, check_certs, check_key}
use bxp_core.Setup.Net.{Net}

module _ {q : Quic} (n : Net q) where
  -- What both files have to hold for a configuration: at least one certificate, a private key,
  -- and the two fit together.
  pub record Material (cert_path key_path : Str) (t : n.TlsServer) : Type 0 where
    cert_pem : List ℕ
    key_pem : List ℕ
    certs : List n.Cert
    key : n.PrivateKey
    read_certs : n.read_file cert_path ≡ ok cert_pem
    read_key : n.read_file key_path ≡ ok key_pem
    parsed_certs : n.parse_certs cert_pem ≡ ok certs
    some_certs : certs ≢ []
    parsed_key : n.parse_key key_pem ≡ ok (some key)
    built : n.with_single_cert certs key ≡ ok t

  check_certs-ne_nil :
      (path : Str) (certs : List n.Cert) → certs ≢ [] → check_certs n path certs ≡ ok certs
  unfolding check_certs
  check_certs-ne_nil path [] h = absurd (h refl)
  check_certs-ne_nil path (x ∷ xs) h = refl

  build_complete :
      (cert_path key_path : Str) (t : n.TlsServer)
      → Material cert_path key_path t
      → build_server_tls n cert_path key_path ≡ ok t
  unfolding build_server_tls check_key
  build_complete cert_path key_path t m =
      let checked = check_certs-ne_nil cert_path m.certs m.some_certs in
      rw (m.read_certs)
        (rw (m.read_key) (rw (m.parsed_certs) (rw checked (rw (m.parsed_key) (rw (m.built))))))

  check_certs-ok :
      (path : Str) (parsed : List n.Cert) {certs : List n.Cert}
      → check_certs n path parsed ≡ ok certs
      → (parsed ≡ certs) × (certs ≢ [])
  unfolding check_certs
  check_certs-ok path [] h = cc
  check_certs-ok path (x ∷ xs) h = (cc, λ e. cc)

  check_key-ok :
      (path : Str) (found : Option n.PrivateKey) {key : n.PrivateKey}
      → check_key n path found ≡ ok key
      → found ≡ some key
  unfolding check_key
  check_key-ok path none h = cc
  check_key-ok path (some k) h = cc

  build_sound :
      (cert_path key_path : Str) (t : n.TlsServer)
      → build_server_tls n cert_path key_path ≡ ok t
      → Material cert_path key_path t
  unfolding build_server_tls
  build_sound cert_path key_path t e =
      let (cert_pem, r₁, e₁) =
        and_then-ok (map_err (cert_read cert_path) (n.read_file cert_path)) _ e in
      let (key_pem, r₂, e₂) =
        and_then-ok (map_err (key_read key_path) (n.read_file key_path)) _ e₁ in
      let (parsed, r₃, e₃) = and_then-ok (map_err cert_parse (n.parse_certs cert_pem)) _ e₂ in
      let (certs, r₄, e₄) = and_then-ok (check_certs n cert_path parsed) _ e₃ in
      let (found, r₅, e₅) = and_then-ok (map_err key_parse (n.parse_key key_pem)) _ e₄ in
      let (key, r₆, e₆) = and_then-ok (check_key n key_path found) _ e₅ in
      let (same, filled) = check_certs-ok cert_path parsed r₄ in
      record {
        cert_pem = cert_pem;
        key_pem = key_pem;
        certs = certs;
        key = key;
        read_certs = map_err-ok (cert_read cert_path) (n.read_file cert_path) r₁;
        read_key = map_err-ok (key_read key_path) (n.read_file key_path) r₂;
        parsed_certs = map_err-ok cert_parse (n.parse_certs cert_pem) r₃ ∙ ap ok same;
        some_certs = filled;
        parsed_key =
            map_err-ok key_parse (n.parse_key key_pem) r₅ ∙ ap ok (check_key-ok key_path found r₆);
        built = map_err-ok setup (n.with_single_cert certs key) e₆;
      }

  -- `build_server_tls` succeeds exactly if both files can be read, the first parses to at least one
  -- certificate, the second to a private key, and TLS accepts the two together; then it returns
  -- what TLS made of them.
  pub build_server_tls-ok_iff :
      (cert_path key_path : Str) (t : n.TlsServer)
      → (build_server_tls n cert_path key_path ≡ ok t) ↔ Material cert_path key_path t
  build_server_tls-ok_iff cert_path key_path t =
      (build_sound cert_path key_path t, build_complete cert_path key_path t)
