-- ===== src/Connect/Tls/Verified.antt =====
-- What an upgraded connection was checked for.
use crunchy_proxy.Config.{SslConfig}
use crunchy_proxy.Connect.Tls.{
  TlsLibrary, TlsConfig, Certificate, mode_require, mode_verify_ca, upgrade_client_connection,
  verify_certificate_authority, verify_certificates, verified, upgraded, zero_config, configured,
  intermediates_of, mode_of,
}
use crunchy_proxy.Connect.Validate.Startup.{equal-false}
use crunchy_proxy.Connect.{Conn}
use crunchy_proxy.Go.{Bytes, ok, IoError, equal, >>=-eq-ok, ok-injective}
use crunchy_proxy.Prelude.{
  ℕ, ◌≡◌, ◌≢◌, refl, sym, subst, ap, ◌⊎◌, inl, inr, not, true, List, [], ◌∷◌, Option, none, some,
  suc,
}

-- Does the server's chain lead to the configured authority? The first certificate is the server's, and
-- the others are the intermediate ones.
abbrev pub IsVerified : TlsLibrary → SslConfig → Conn → Type 0
IsVerified tls ssl client =
    (tls.handshake client ≡ none)
    × (first : Certificate) × (others : List Certificate) × (tls.peer_certificates client
        ≡ first ∷ others)
    × (tls.verify
          (record {
            dns_name = tls.state_server_name client;
            intermediates = others;
            roots = some ssl.ssl_root_ca;
          })
          first
        ≡ none)

-- The modes that ask for the check of the authority
abbrev pub AsksAuthority : SslConfig → Type 0
AsksAuthority ssl =
    (ssl.ssl_mode ≡ mode_verify_ca) ⊎ ((ssl.ssl_mode ≡ mode_require) × (ssl.ssl_root_ca ≢ []))

intermediates-later : (i : ℕ) (certs : List Certificate) → intermediates_of (suc i) certs ≡ certs
unfolding intermediates_of
intermediates-later i [] = refl
intermediates-later i (c ∷ certs) = ap (λ t. c ∷ t) (intermediates-later (suc i) certs)

verify_certificates-none :
    (tls : TlsLibrary) (name : Bytes) (roots : Option Bytes) (h : Option IoError)
    (certs : List Certificate)
    → verify_certificates tls name roots h certs ≡ ok none
    → (h ≡ none)
      × (first : Certificate) × (others : List Certificate) × (certs ≡ first ∷ others)
      × (tls.verify (record { dns_name = name; intermediates = others; roots = roots }) first
          ≡ none)
unfolding verify_certificates intermediates_of
verify_certificates-none tls name roots (some err) certs e = cc
verify_certificates-none tls name roots none [] e = cc
verify_certificates-none tls name roots none (c ∷ certs) e = (
  refl,
  c,
  certs,
  refl,
  subst
      (λ others.
        tls.verify (record { dns_name = name; intermediates = others; roots = roots }) c ≡ none)
      (intermediates-later 0 certs) (ok-injective e),
)

verified-some :
    (client c : Conn) (err : Option IoError)
    → ok (verified client err) ≡ ok (some c)
    → (err ≡ none) × (c ≡ client)
verified-some client c none e = (refl, cc)
verified-some client c (some err) e = cc

-- The configuration of a mode that asks for the check of the authority.
checking : SslConfig → TlsConfig
checking ssl = record {
  insecure_skip_verify = true;
  server_name = [];
  certificate = (ssl.ssl_cert, ssl.ssl_key);
  root_cas = some ssl.ssl_root_ca;
}

mode_of-asks :
    (tls : TlsLibrary) (ssl : SslConfig) (host_port : Bytes)
    → AsksAuthority ssl
    → mode_of tls ssl host_port
      ≡ configured true (record zero_config { insecure_skip_verify = true })
unfolding mode_of equal
mode_of-asks tls ssl host_port (inl e) = rw e refl
mode_of-asks tls ssl host_port (inr (e, n)) = rw e (
    ap (λ b. configured (not b) (record zero_config { insecure_skip_verify = true }))
      (equal-false ssl.ssl_root_ca [] n))

-- With a mode that asks for the check of the authority, no connection comes out of
-- `UpgradeClientConnection` but one whose handshake has ended without error and whose first
-- certificate was verified against the configured root CA with the others as intermediate ones.
pub upgrade_client_connection-IsVerified :
    (tls : TlsLibrary) (ssl : SslConfig) (host_port : Bytes) (connection client : Conn)
    → AsksAuthority ssl
    → upgrade_client_connection tls ssl host_port connection ≡ ok (some client)
    → IsVerified tls ssl client
unfolding upgrade_client_connection verify_certificate_authority checking
upgrade_client_connection-IsVerified tls ssl host_port connection client a e =
    let e' =
      subst (λ m. upgraded tls ssl connection m ≡ ok (some client))
        (mode_of-asks tls ssl host_port a) e in
    let (err, checked, got) =
      >>=-eq-ok
        (verify_certificate_authority tls (tls.client connection (checking ssl)) (checking ssl)) _
        e' in
    let (none_err, same) = verified-some (tls.client connection (checking ssl)) client err got in
    subst (IsVerified tls ssl) (sym same) (
      verify_certificates-none tls _ _ _ _ (
        subst
          (λ r.
            verify_certificate_authority tls (tls.client connection (checking ssl)) (checking ssl)
            ≡ ok r)
          none_err checked))
