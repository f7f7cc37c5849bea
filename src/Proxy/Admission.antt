-- ===== src/Proxy/Admission.antt =====
-- proxy/proxy.go, `HandleConnection` up to the client's first query: the SSL request, the validation of
-- the user and the database, and the login at the master node.
pub mod Safe
pub mod Needed
use crunchy_proxy.Config.{Credentials}
use crunchy_proxy.Connect.Dial.{Dialed}
use crunchy_proxy.Connect.Login.{Login, LoginError, network, authenticate_client}
use crunchy_proxy.Connect.Tls.{TlsLibrary, upgrade_server_connection}
use crunchy_proxy.Connect.Validate.{is_eof, validate_client}
use crunchy_proxy.Connect.{Conn, Received, send, receive}
use crunchy_proxy.Go.{Bytes, Outcome, ok, panic, ◌>>=◌, eof, codes}
use crunchy_proxy.Prelude.{ℕ, Bool, true, false, Option, none, some, [], ◌==◌, if◌then◌else◌}
use crunchy_proxy.Protocol.Error.{Error, empty_error, get_message}
use crunchy_proxy.Protocol.Frame.{get_version, ssl_request_code, ssl_allowed, ssl_not_allowed}
use crunchy_proxy.Protocol.Message.{run_on, ◌>>◌, write_byte, get_bytes}

-- A client that may send queries, one that was turned away, or the end of the process.
pub data Admission : Type 0 where
  admitted turned_away : Conn → Admission
  stopped : Admission

-- The answer to an SSL request
unfoldable pub ssl_response : Credentials → Outcome Bytes
ssl_response creds =
    run_on [] do write_byte (if creds.ssl.enable then ssl_allowed else ssl_not_allowed); get_bytes

-- `ErrorSeverityFatal` and `ErrorCodeInvalidAuthorizationSpecification` are the literals below.
abbrev pub validation_error : Error
validation_error = record empty_error {
  severity = codes "FATAL";
  code = codes "28000";
  message = codes "could not validate user/database";
}

-- The returns behind the login. `err.Error()` panics where there is no error.
unfoldable pub after_login : Option Login → Outcome Admission
after_login none = ok stopped
after_login (some login) = elim login.err [
  | some (network eof) ↦ ok (turned_away login.client)
  | some err ↦ ok (if login.authenticated then admitted login.client else turned_away login.client)
  | none ↦ if login.authenticated then ok (admitted login.client) else panic
]

-- What is behind the validation. `dialed` is what `Connect` gives for the master.
unfoldable pub validated : Outcome Dialed → Conn → Received → Bool → Outcome Admission
unfolding after_login send
validated dialed client startup true =
    authenticate_client dialed client startup.buffer startup.length >>= after_login
validated dialed client startup false =
    get_message validation_error >>= λ message. ok (turned_away (send client message).1)

unfoldable pub validate_and_login :
    Credentials → Outcome Dialed → Conn → Received → Outcome Admission
unfolding validated
validate_and_login creds dialed client startup =
    validate_client creds startup.buffer >>= validated dialed client startup

-- What is behind the second `Receive`, by whether the client has hung up.
abbrev pub reread : Credentials → Outcome Dialed → Conn → Received → Bool → Outcome Admission
reread creds dialed client startup true = ok (turned_away client)
reread creds dialed client startup false = validate_and_login creds dialed client startup

-- What is behind the first `Receive`, by whether the message is an SSL request.
unfoldable pub on_startup :
    TlsLibrary → Credentials → Outcome Dialed → Conn → Received → Bool → Outcome Admission
unfolding ssl_response send receive validate_and_login
on_startup tls creds dialed client startup false = validate_and_login creds dialed client startup
on_startup tls creds dialed client startup true = do
  response ← ssl_response creds
  let client = upgrade_server_connection tls creds.ssl (send client response).1
  let (startup, client) = receive client
  reread creds dialed client startup (is_eof startup.err)

-- An error of the first `Receive` is only logged: the buffer is all zeros then.
unfoldable pub admit : TlsLibrary → Credentials → Outcome Dialed → Conn → Outcome Admission
unfolding receive on_startup
admit tls creds dialed client = do
  let (startup, client) = receive client
  version ← get_version startup.buffer
  on_startup tls creds dialed client startup (version == ssl_request_code)
