-- ===== src/Connect/Dial/Secured.antt =====
-- What `Connect` returns when the configuration asks for TLS.
use crunchy_proxy.Config.{SslConfig, Viper}
use crunchy_proxy.Connect.Buffers.{index-fill}
use crunchy_proxy.Protocol.Message.{fill, write_int32, get_bytes}
use crunchy_proxy.Prelude.{arith}
use crunchy_proxy.Connect.Dial.{
  connected, or_exited, ssl_request, on_ssl_response, read_done, write_done, negotiate, connect,
}
use crunchy_proxy.Connect.Tls.Verified.{
  IsVerified, AsksAuthority, upgrade_client_connection-IsVerified,
}
use crunchy_proxy.Connect.Tls.{TlsLibrary, upgrade_client_connection}
use crunchy_proxy.Connect.{Conn, send, receive, received, buffer_size}
use crunchy_proxy.Go.BigEndian.{be32}
use crunchy_proxy.Go.{Bytes, ok, ◌>>=◌, >>=-eq-ok, IoError, codes, index}
use crunchy_proxy.Prelude.{
  ℕ, true, Option, none, some, List, [], ◌∷◌, ◌++◌, ◌≡◌, ◌≢◌, refl, ap, subst, ◌∙◌, ◌==◌, ==_false,
  Bool-cases, if◌then◌else◌, ◌⊎◌, inl, inr,
}
use crunchy_proxy.Protocol.Frame.Layout.{startup_frame}
use crunchy_proxy.Protocol.Frame.{ssl_request_code}

-- The connection is closed, or its certificates were checked.
abbrev pub IsSecured : TlsLibrary → SslConfig → Conn → Type 0
IsSecured tls ssl c = (c.closed ≡ true) ⊎ IsVerified tls ssl c

or_exited-connected :
    (o : Option Conn) (c : Conn) → ok (or_exited o) ≡ ok (connected c) → o ≡ some c
or_exited-connected none c e = cc
or_exited-connected (some c') c e = cc

module _ (tls : TlsLibrary) (ssl : SslConfig) (host : Bytes) (asks : AsksAuthority ssl)
    (c : Conn) where
  on_ssl_response-IsSecured :
      (response : Bytes) (connection : Conn)
      → on_ssl_response tls ssl host response connection ≡ ok (connected c)
      → IsSecured tls ssl c
  unfolding on_ssl_response
  on_ssl_response-IsSecured response connection e =
      let (answer, at, e') = >>=-eq-ok (index response 0) _ e in
      elim (Bool-cases (answer == b'S')) [
        | inl s ↦
            let (o, up, got) = >>=-eq-ok (upgrade_client_connection tls ssl host connection) _ (
              subst
                (λ b.
                  (if b
                    then (upgrade_client_connection tls ssl host connection >>= λ c.
                        ok (or_exited c))
                    else ok (connected (record connection { closed = true })))
                  ≡ ok (connected c))
                s e') in
            inr (
              upgrade_client_connection-IsVerified tls ssl host connection c asks
                (up ∙ ap ok (or_exited-connected o c got)))
        | inr n ↦ inl (
            closed_is (
              subst
                (λ b.
                  (if b
                    then (upgrade_client_connection tls ssl host connection >>= λ c.
                        ok (or_exited c))
                    else ok (connected (record connection { closed = true })))
                  ≡ ok (connected c))
                n e'))
      ]
    where
      closed_is :
          ok (connected (record connection { closed = true })) ≡ ok (connected c) → c.closed ≡ true
      closed_is e = cc

  read_done-IsSecured :
      (response : Bytes) (connection : Conn) (err : Option IoError)
      → read_done tls ssl host response connection err ≡ ok (connected c)
      → IsSecured tls ssl c
  read_done-IsSecured response connection (some err) e = cc
  read_done-IsSecured response connection none e = on_ssl_response-IsSecured response connection e

  write_done-IsSecured :
      (connection : Conn) (err : Option IoError)
      → write_done tls ssl host connection err ≡ ok (connected c)
      → IsSecured tls ssl c
  write_done-IsSecured connection (some err) e = cc
  write_done-IsSecured connection none e = read_done-IsSecured _ _ _ e

  negotiate-IsSecured :
      (viper : Viper) (dialed : IoError ⊎ Conn)
      → viper.get_bool (codes "credentials.ssl.enable") ≡ true
      → negotiate viper tls ssl host dialed ≡ ok (connected c)
      → IsSecured tls ssl c
  negotiate-IsSecured viper (inl err) on e = cc
  negotiate-IsSecured viper (inr connection) on e =
      let (message, built, e') = >>=-eq-ok ssl_request _ (rw on at e) in write_done-IsSecured _ _ e'

  -- With TLS on and a mode that asks for the check of the authority, every connection that
  -- `Connect` returns is closed, or its handshake has ended without error and its server
  -- certificate was verified against the configured root CA.
  pub connect-IsSecured :
      (viper : Viper) (dial : Bytes → IoError ⊎ Conn)
      → viper.get_bool (codes "credentials.ssl.enable") ≡ true
      → connect viper tls ssl dial host ≡ ok (connected c)
      → IsSecured tls ssl c
  unfolding connect
  connect-IsSecured viper dial on e = negotiate-IsSecured viper (dial host) on e

ssl_request-startup_frame : ssl_request ≡ ok (startup_frame (be32 ssl_request_code))
unfolding ssl_request be32 write_int32 get_bytes
ssl_request-startup_frame = refl

on_ssl_response-closed :
    (tls : TlsLibrary) (ssl : SslConfig) (host : Bytes) (answer : ℕ) (rest : Bytes) (c : Conn)
    → answer ≢ b'S'
    → on_ssl_response tls ssl host (fill buffer_size (answer ∷ rest)) c
      ≡ ok (connected (record c { closed = true }))
unfolding on_ssl_response
on_ssl_response-closed tls ssl host answer rest c n =
    rw (index-fill buffer_size answer rest (omega arith), ==_false answer b'S' n)

-- With TLS on and a connection whose writes succeed, a backend that answers the SSL request by a
-- message that does not begin with `S` leaves `Connect` with a closed connection and no error.
pub connect_closed :
    (viper : Viper) (tls : TlsLibrary) (ssl : SslConfig) (dial : Bytes → IoError ⊎ Conn)
    (host : Bytes) (c : Conn) (answer : ℕ) (rest : Bytes) (reads : List (Bytes × Option IoError))
    → viper.get_bool (codes "credentials.ssl.enable") ≡ true
    → dial host ≡ inr (record c { reads = (answer ∷ rest, none) ∷ reads; writes = [] })
    → answer ≢ b'S'
    → connect viper tls ssl dial host
      ≡ ok (
          connected (record c {
            reads = reads;
            writes = [];
            sent = c.sent ++ startup_frame (be32 ssl_request_code) ∷ [];
            closed = true;
          }))
unfolding connect send receive received
connect_closed viper tls ssl dial host c answer rest reads on d n =
    rw (d, on, ssl_request-startup_frame) (on_ssl_response-closed tls ssl host answer rest _ n)
