-- ===== src/Connect/Dial.antt =====
-- connect/connect.go, `Connect`: a new connection to a backend, over TLS where the configuration asks
-- for it. `dial` stands for `net.Dial` and the network behind it.
pub mod Secured
use crunchy_proxy.Config.{SslConfig, Viper}
use crunchy_proxy.Connect.{Conn, send, receive}
use crunchy_proxy.Connect.Tls.{TlsLibrary, upgrade_client_connection}
use crunchy_proxy.Go.{Bytes, Outcome, ok, ◌>>=◌, IoError, codes, index}
use crunchy_proxy.Prelude.{Bool, true, Option, none, some, [], ◌==◌, if◌then◌else◌, ◌⊎◌, inl, inr}
use crunchy_proxy.Protocol.Frame.{ssl_request_code}
use crunchy_proxy.Protocol.Message.{run_on, ◌>>◌, write_int32, get_bytes}

-- What `Connect` ends with: an error, a connection, or the end of the process.
pub data Dialed : Type 0 where
  refused : IoError → Dialed
  connected : Conn → Dialed
  exited : Dialed

unfoldable pub ssl_request : Outcome Bytes
ssl_request = run_on [] do write_int32 8; write_int32 ssl_request_code; get_bytes

abbrev pub or_exited : Option Conn → Dialed
or_exited none = exited
or_exited (some connection) = connected connection

-- The test `len(response) > 0` holds of a buffer of 4096 bytes.
unfoldable pub on_ssl_response : TlsLibrary → SslConfig → Bytes → Bytes → Conn → Outcome Dialed
on_ssl_response tls ssl host response connection = do
  answer ← index response 0
  if answer == b'S'
      then (upgrade_client_connection tls ssl host connection >>= λ c. ok (or_exited c))
      else ok (connected (record connection { closed = true }))

-- What is behind the read, by its error.
abbrev pub read_done :
    TlsLibrary → SslConfig → Bytes → Bytes → Conn → Option IoError → Outcome Dialed
read_done tls ssl host response connection (some err) = ok (refused err)
read_done tls ssl host response connection none = on_ssl_response tls ssl host response connection

-- What is behind the write, by its error.
abbrev pub write_done : TlsLibrary → SslConfig → Bytes → Conn → Option IoError → Outcome Dialed
write_done tls ssl host connection (some err) = ok (refused err)
write_done tls ssl host connection none =
    let (response, connection) = receive connection in
    read_done tls ssl host response.buffer connection response.err

abbrev pub negotiate : Viper → TlsLibrary → SslConfig → Bytes → IoError ⊎ Conn → Outcome Dialed
negotiate viper tls ssl host (inl err) = ok (refused err)
negotiate viper tls ssl host (inr connection) =
    if viper.get_bool (codes "credentials.ssl.enable")
    then (ssl_request >>= λ message.
        let (err, connection) = send connection message in write_done tls ssl host connection err)
    else ok (connected connection)

unfoldable pub connect :
    Viper → TlsLibrary → SslConfig → (Bytes → IoError ⊎ Conn) → Bytes → Outcome Dialed
unfolding ssl_request send receive on_ssl_response
connect viper tls ssl dial host = negotiate viper tls ssl host (dial host)
