-- ===== src/Tests/Connect.antt =====
-- Concrete connections: package connect, and the admission of a client.
use crunchy_proxy.Config.{Credentials, SslConfig, Viper}
use crunchy_proxy.Connect.Buffers.{says_ok}
use crunchy_proxy.Connect.Dial.Secured.{IsSecured, connect-IsSecured, connect_closed}
use crunchy_proxy.Connect.Dial.{connected, connect}
use crunchy_proxy.Connect.Password.Exchange.{request, exchanged, handle_authentication_request-md5}
use crunchy_proxy.Connect.Password.{create_md5_password, handle_authentication_request}
use crunchy_proxy.Connect.Tls.Verified.{IsVerified, upgrade_client_connection-IsVerified}
use crunchy_proxy.Connect.Tls.{TlsLibrary, upgrade_client_connection}
use crunchy_proxy.Connect.Validate.Confusion.{validate_client_confused}
use crunchy_proxy.Connect.Validate.Startup.{validate_client-startup_frame}
use crunchy_proxy.Connect.Validate.{validate_client, user_key}
use crunchy_proxy.Connect.{Conn, received}
use crunchy_proxy.Protocol.Message.{fill, write_int32, get_bytes}
use crunchy_proxy.Go.BigEndian.{be32}
use crunchy_proxy.Go.{Bytes, eof, ok, index, codes, equal}
use crunchy_proxy.Prelude.{
  ◌≡◌, refl, inl, inr, true, false, ◌&&◌, none, some, [], ◌∷◌, ◌++◌, arith, replicate,
}
use crunchy_proxy.Protocol.Authentication
use crunchy_proxy.Protocol.Frame.Layout.{frame, startup_frame}
use crunchy_proxy.Protocol.Frame.{protocol_version, ssl_request_code}
use crunchy_proxy.Protocol.MessageType
use crunchy_proxy.Protocol.Startup.Layout.{strings, startup_params}

abbrev ssl_off : SslConfig
ssl_off = record {
  enable = false;
  ssl_mode = codes "verify-ca";
  ssl_cert = [];
  ssl_key = [];
  ssl_root_ca = codes "ca";
  ssl_server_cert = [];
  ssl_server_key = [];
  ssl_server_ca = [];
}

abbrev pub creds : Credentials
creds = record {
  username = codes "u";
  password = codes "p";
  database = codes "d";
  ssl = ssl_off;
  options = [];
}

abbrev pub viper : Viper
viper = record {
  get_bool = λ key. true;
  get_string = λ key. codes "p";
  get_string_map_string = λ key. [];
}

abbrev pub quiet : Conn
quiet = record { reads = []; behind = eof; writes = []; sent = []; closed = false }

abbrev pub tls : TlsLibrary
tls = record {
  hostname = λ host. host;
  client = λ c config. c;
  server = λ c cert key. c;
  handshake = λ c. none;
  peer_certificates = λ c. codes "leaf" ∷ [];
  state_server_name = λ c. [];
  verify = λ options certificate. none;
}

abbrev pub no_md5 : Bytes → Bytes
no_md5 b = 10 ∷ 20 ∷ []

validate_client-startup_frame_example :
    validate_client creds (
      startup_frame
        (be32 protocol_version ++ (strings (startup_params (codes "u") (codes "d") []) ++ 0 ∷ []))
      ++ replicate 7 0)
    ≡ ok (equal (codes "u") creds.username && equal (codes "d") creds.database)
validate_client-startup_frame_example =
    validate_client-startup_frame creds (codes "u") (codes "d") [] 7 (omega arith) (omega arith) tt

validate_client_confused_example :
    validate_client creds (
      startup_frame (
        be32 protocol_version
        ++ (strings (
              startup_params
                (codes "e")
                (codes "d")
                ((codes "k", user_key) ∷ (codes "u", codes "v") ∷ []))
            ++ 0 ∷ []))
      ++ replicate 7 0)
    ≡ ok (equal (codes "u") creds.username && equal (codes "d") creds.database)
validate_client_confused_example =
    validate_client_confused creds (codes "e") (codes "d") (codes "k") (codes "u") (codes "v") [] 7
      (omega arith) (omega arith) (omega arith, (λ e. cc), (λ e. cc)) (omega arith)
      (omega arith, (λ e. cc), (λ e. cc)) tt

abbrev salt : Bytes
salt = 1 ∷ 2 ∷ 3 ∷ 4 ∷ []

abbrev accepting : Bytes
accepting = b'R' ∷ 0 ∷ 0 ∷ 0 ∷ 8 ∷ 0 ∷ 0 ∷ 0 ∷ 0 ∷ []

handle_authentication_request-md5_example :
    handle_authentication_request no_md5 creds viper
      (record quiet { reads = (accepting, none) ∷ [] })
      (request Authentication.md5 salt ++ [])
    ≡ ok (
      says_ok accepting,
      exchanged quiet
          (frame MessageType.password
            (create_md5_password no_md5 creds.username creds.password salt ++ 0 ∷ []))
          [],
    )
handle_authentication_request-md5_example =
    handle_authentication_request-md5 no_md5 creds viper quiet salt [] accepting none [] refl
      (omega arith)

upgraded : upgrade_client_connection tls ssl_off (codes "h") quiet ≡ ok (some quiet)
unfolding upgrade_client_connection equal
upgraded = refl

upgrade_client_connection-IsVerified_example : IsVerified tls ssl_off quiet
upgrade_client_connection-IsVerified_example =
    upgrade_client_connection-IsVerified tls ssl_off (codes "h") quiet quiet (inl refl) upgraded

abbrev agreeing : Conn
agreeing = record quiet { reads = (b'S' ∷ [], none) ∷ [] }

abbrev after_request : Conn
after_request = record quiet { sent = startup_frame (be32 ssl_request_code) ∷ [] }

made : connect viper tls ssl_off (λ host. inr agreeing) (codes "h") ≡ ok (connected after_request)
unfolding connect equal index fill received be32 write_int32 upgrade_client_connection get_bytes
made = refl

connect-IsSecured_example : IsSecured tls ssl_off after_request
connect-IsSecured_example =
    connect-IsSecured tls ssl_off (codes "h") (inl refl) after_request viper (λ host. inr agreeing)
      refl made

connect_closed_example :
    connect viper tls ssl_off
      (λ host. inr (record quiet { reads = (b'N' ∷ [], none) ∷ []; writes = [] }))
      (codes "h")
    ≡ ok (
        connected (record quiet {
          reads = [];
          writes = [];
          sent = quiet.sent ++ startup_frame (be32 ssl_request_code) ∷ [];
          closed = true;
        }))
connect_closed_example =
    connect_closed viper tls ssl_off
      (λ host. inr (record quiet { reads = (b'N' ∷ [], none) ∷ []; writes = [] })) (codes "h") quiet
      b'N' [] [] refl refl (omega arith)
