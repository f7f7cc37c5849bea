-- ===== src/Proxy/Admission/Needed.antt =====
-- No client gets to send queries without a connection to the master.
use crunchy_proxy.Config.{Credentials}
use crunchy_proxy.Connect.Dial.{Dialed, refused, connected, exited}
use crunchy_proxy.Connect.Login.{Login, authenticate_client, start_login}
use crunchy_proxy.Connect.Tls.{TlsLibrary, upgrade_server_connection}
use crunchy_proxy.Connect.Validate.{is_eof, validate_client}
use crunchy_proxy.Connect.{Conn, Received, receive, send}
use crunchy_proxy.Go.{Outcome, ok, >>=-eq-ok, eof, failed}
use crunchy_proxy.Prelude.{◌≡◌, refl, ap, ◌∙◌, Bool, true, false, Option, arith, ◌==◌}
use crunchy_proxy.Protocol.Error.{get_message}
use crunchy_proxy.Protocol.Frame.{get_version, ssl_request_code}
use crunchy_proxy.Proxy.Admission.{
  admitted, turned_away, after_login, validated, validate_and_login, reread, on_startup, admit,
  validation_error, ssl_response,
}

-- `Connect` gives a connection.
abbrev pub IsConnected : Outcome Dialed → Type 0
IsConnected d = (m : Conn) × (d ≡ ok (connected m))

start_login-connected :
    (client : Conn) (r : Received) (d : Dialed) {l : Option Login} {c : Conn}
    → start_login client r.buffer r.length d ≡ ok l
    → after_login l ≡ ok (admitted c)
    → (m : Conn) × (d ≡ connected m)
unfolding after_login
start_login-connected client r (connected m) e f = (m, refl)
start_login-connected client r exited {l} e f = ground arith
start_login-connected client r (refused eof) e f = ground arith
start_login-connected client r (refused failed) e f = ground arith

module _ (tls : TlsLibrary) (creds : Credentials) (dialed : Outcome Dialed) where
  validated-IsConnected :
      (client : Conn) (r : Received) (valid : Bool) {c : Conn}
      → validated dialed client r valid ≡ ok (admitted c)
      → IsConnected dialed
  unfolding validated authenticate_client
  validated-IsConnected client r false e =
      let (message, _, f) =
        >>=-eq-ok (get_message validation_error)
          (λ message. ok (turned_away (send client message).1)) e in
      ground arith
  validated-IsConnected client r true e =
      let (login, f, g) =
        >>=-eq-ok (authenticate_client dialed client r.buffer r.length) after_login e in
      let (d, h, k) = >>=-eq-ok dialed (start_login client r.buffer r.length) f in
      let (m, q) = start_login-connected client r d k g in (m, h ∙ ap ok q)

  validate_and_login-IsConnected :
      (client : Conn) (r : Received) {c : Conn}
      → validate_and_login creds dialed client r ≡ ok (admitted c)
      → IsConnected dialed
  unfolding validate_and_login
  validate_and_login-IsConnected client r e =
      let (valid, _, f) =
        >>=-eq-ok (validate_client creds r.buffer) (validated dialed client r) e in
      validated-IsConnected client r valid f

  reread-IsConnected :
      (client : Conn) (r : Received) (hung_up : Bool) {c : Conn}
      → reread creds dialed client r hung_up ≡ ok (admitted c)
      → IsConnected dialed
  reread-IsConnected client r true e = ground arith
  reread-IsConnected client r false e = validate_and_login-IsConnected client r e

  on_startup-IsConnected :
      (client : Conn) (r : Received) (asks : Bool) {c : Conn}
      → on_startup tls creds dialed client r asks ≡ ok (admitted c)
      → IsConnected dialed
  unfolding on_startup
  on_startup-IsConnected client r false e = validate_and_login-IsConnected client r e
  on_startup-IsConnected client r true e =
      let (response, _, f) =
        >>=-eq-ok (ssl_response creds)
          (λ response.
            let next = receive (upgrade_server_connection tls creds.ssl (send client response).1) in
            reread creds dialed next.1 next.0 (is_eof next.0.err))
          e in
      let next = receive (upgrade_server_connection tls creds.ssl (send client response).1) in
      reread-IsConnected next.1 next.0 (is_eof next.0.err) f

  -- A client that is admitted was logged in over a connection that `Connect` gave.
  pub admit-IsConnected :
      (client : Conn) {c : Conn}
      → admit tls creds dialed client ≡ ok (admitted c)
      → IsConnected dialed
  unfolding admit
  admit-IsConnected client e =
      let (startup, rest) = receive client in
      let (version, _, f) =
        >>=-eq-ok (get_version startup.buffer)
          (λ version. on_startup tls creds dialed rest startup (version == ssl_request_code)) e in
      on_startup-IsConnected rest startup (version == ssl_request_code) f
