-- ===== src/Connect/Tls.antt =====
-- connect/ssl.go: the upgrade of a connection to TLS. The library crypto/tls is not modelled: a
-- `TlsLibrary` holds what its calls give.
pub mod Verified
use crunchy_proxy.Config.{SslConfig}
use crunchy_proxy.Connect.{Conn}
use crunchy_proxy.Go.{Bytes, Outcome, ok, panic, ◌>>=◌, IoError, codes, equal}
use crunchy_proxy.Prelude.{
  ℕ, zero, suc, Bool, true, false, not, List, [], ◌∷◌, Option, none, some, if◌then◌else◌,
}

-- A certificate, by its bytes.
abbrev pub Certificate : Type 0
Certificate = Bytes

-- `tls.Config`: of the certificate and the root CA the names of the files that they are loaded from,
-- and of the authorities none for a nil pointer, which are those of the host.
pub record TlsConfig : Type 0 where
  pub insecure_skip_verify : Bool
  pub server_name : Bytes
  pub certificate : Bytes × Bytes
  pub root_cas : Option Bytes

-- `x509.VerifyOptions`
pub record VerifyOptions : Type 0 where
  pub dns_name : Bytes
  pub intermediates : List Certificate
  pub roots : Option Bytes

-- `hostname` is the first result of `net.SplitHostPort`, `client` and `server` the connections of
-- `tls.Client` and `tls.Server`. For a client connection: `handshake` is the error of `Handshake`, then
-- the two members of its state behind it, and `verify` the error of `Certificate.Verify`.
pub record TlsLibrary : Type 0 where
  pub hostname : Bytes → Bytes
  pub client : Conn → TlsConfig → Conn
  pub server : Conn → Bytes → Bytes → Conn
  pub handshake : Conn → Option IoError
  pub peer_certificates : Conn → List Certificate
  pub state_server_name : Conn → Bytes
  pub verify : VerifyOptions → Certificate → Option IoError

-- `SSL_MODE_REQUIRE`
abbrev pub mode_require : Bytes
mode_require = codes "require"

-- `SSL_MODE_VERIFY_CA`
abbrev pub mode_verify_ca : Bytes
mode_verify_ca = codes "verify-ca"

-- `SSL_MODE_VERIFY_FULL`
abbrev pub mode_verify_full : Bytes
mode_verify_full = codes "verify-full"

-- `SSL_MODE_DISABLE`
abbrev pub mode_disable : Bytes
mode_disable = codes "disable"

unfoldable pub upgrade_server_connection : TlsLibrary → SslConfig → Conn → Conn
upgrade_server_connection tls ssl client =
    if ssl.enable then tls.server client ssl.ssl_server_cert ssl.ssl_server_key else client

-- The loop that adds the certificates but the one at index 0.
unfoldable pub intermediates_of : ℕ → List Certificate → List Certificate
intermediates_of i [] = []
intermediates_of zero (certificate ∷ certs) = intermediates_of 1 certs
intermediates_of (suc i) (certificate ∷ certs) = certificate ∷ intermediates_of (suc (suc i)) certs

-- The verification behind the handshake. Without a certificate, `certs[0]` panics.
unfoldable pub verify_certificates :
    TlsLibrary → Bytes → Option Bytes → Option IoError → List Certificate → Outcome (Option IoError)
unfolding intermediates_of
verify_certificates tls server_name roots (some err) certs = ok (some err)
verify_certificates tls server_name roots none [] = panic
verify_certificates tls server_name roots none (certificate ∷ certs) =
    let options : VerifyOptions = record {
      dns_name = server_name;
      intermediates = intermediates_of 0 (certificate ∷ certs);
      roots = roots;
    } in
    ok (tls.verify options certificate)

-- `verifyCertificateAuthority`
unfoldable pub verify_certificate_authority :
    TlsLibrary → Conn → TlsConfig → Outcome (Option IoError)
unfolding verify_certificates
verify_certificate_authority tls client tls_conf =
    verify_certificates tls (tls.state_server_name client) tls_conf.root_cas (tls.handshake client)
      (tls.peer_certificates client)

-- What the `switch` on the mode gives: whether to verify the authority and the configuration, the
-- connection as it is, or the end of the process.
pub data Mode : Type 0 where
  configured : Bool → TlsConfig → Mode
  disabled unsupported : Mode

-- `tls.Config{}`
abbrev pub zero_config : TlsConfig
zero_config = record {
  insecure_skip_verify = false;
  server_name = [];
  certificate = ([], []);
  root_cas = none;
}

unfoldable pub mode_of : TlsLibrary → SslConfig → Bytes → Mode
mode_of tls ssl host_port =
    if equal ssl.ssl_mode mode_require
    then configured (not (equal ssl.ssl_root_ca []))
        (record zero_config { insecure_skip_verify = true })
    else if equal ssl.ssl_mode mode_verify_ca
    then configured true (record zero_config { insecure_skip_verify = true })
    else if equal ssl.ssl_mode mode_verify_full
    then configured false (record zero_config { server_name = tls.hostname host_port })
    else if equal ssl.ssl_mode mode_disable
    then disabled
    else unsupported

-- What `log.Fatalf` leaves of the process: nothing.
abbrev pub verified : Conn → Option IoError → Option Conn
verified client (some err) = none
verified client none = some client

abbrev pub upgraded : TlsLibrary → SslConfig → Conn → Mode → Outcome (Option Conn)
upgraded tls ssl connection disabled = ok (some connection)
upgraded tls ssl connection unsupported = ok none
upgraded tls ssl connection (configured verify_ca tls_config) =
    let tls_config = record tls_config {
      certificate = (ssl.ssl_cert, ssl.ssl_key);
      root_cas = some ssl.ssl_root_ca;
    } in
    let client = tls.client connection tls_config in
    if verify_ca
    then (verify_certificate_authority tls client tls_config >>= λ err. ok (verified client err))
    else ok (some client)

-- `UpgradeClientConnection`: none where the process ends.
unfoldable pub upgrade_client_connection :
    TlsLibrary → SslConfig → Bytes → Conn → Outcome (Option Conn)
unfolding mode_of verify_certificate_authority
upgrade_client_connection tls ssl host_port connection =
    upgraded tls ssl connection (mode_of tls ssl host_port)
