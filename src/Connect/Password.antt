-- ===== src/Connect/Password.antt =====
-- connect/auth.go: how the proxy answers the authentication requests of a backend. The MD5 sum is
-- Go's crypto/md5, which is not modelled: `md5_sum` stands for it.
pub mod Exchange
pub mod Total
use crunchy_proxy.Config.{Credentials, Viper}
use crunchy_proxy.Connect.{Conn, Received, send, receive}
use crunchy_proxy.Go.BigEndian.{uint32}
use crunchy_proxy.Go.{Bytes, Outcome, ok, ◌>>=◌, codes, slice}
use crunchy_proxy.Prelude.{
  ℕ, ◌+◌, ◌/◌, ◌%◌, Bool, true, false, [], ◌∷◌, ◌++◌, ◌==◌, ltb, if◌then◌else◌,
}
use crunchy_proxy.Protocol.Authentication
use crunchy_proxy.Protocol.Frame.{is_authentication_ok}
use crunchy_proxy.Protocol.Startup.{create_password_message}

abbrev hex_digit : ℕ → ℕ
hex_digit n = if ltb n 10 then 48 + n else 87 + n

-- `fmt.Sprintf("%x", …)`
unfoldable pub hex : Bytes → Bytes
hex [] = []
hex (b ∷ s) = hex_digit (b / 16) ∷ hex_digit (b % 16) ∷ hex s

-- `createMD5Password`
unfoldable pub create_md5_password : (Bytes → Bytes) → Bytes → Bytes → Bytes → Bytes
create_md5_password md5_sum username password salt =
    let password_string = password ++ username in
    let password_string = hex (md5_sum password_string) in
    let password_string = password_string ++ salt in codes "md5" ++ hex (md5_sum password_string)

-- The rest of both functions below, for the password. The errors of the write and of the read are
-- logged, and nothing else.
unfoldable pub send_password : Conn → Bytes → Outcome (Bool × Conn)
unfolding send receive
send_password connection password = do
  password_message ← create_password_message password
  let connection = (send connection password_message).1
  let (response, connection) = receive connection
  authenticated ← is_authentication_ok response.buffer
  ok (authenticated, connection)

unfoldable pub handle_auth_md5 :
    (Bytes → Bytes) → Credentials → Conn → Bytes → Outcome (Bool × Conn)
unfolding send_password create_md5_password
handle_auth_md5 md5_sum creds connection message = do
  salt ← slice message 9 13
  send_password connection (create_md5_password md5_sum creds.username creds.password salt)

unfoldable pub handle_auth_clear_text : Viper → Conn → Outcome (Bool × Conn)
unfolding send_password
handle_auth_clear_text viper connection =
    send_password connection (viper.get_string (codes "credentials.password"))

-- `HandleAuthenticationRequest`, up to its `switch`. The message's length is read and not used.
unfoldable pub authentication_type : Bytes → Outcome ℕ
authentication_type message = do
  length_bytes ← slice message 1 5
  type_bytes ← slice message 5 9
  uint32 type_bytes

-- The methods that are not supported are logged, each by its name, and refused, as an unknown one is.
unfoldable pub handle_authentication_request :
    (Bytes → Bytes) → Credentials → Viper → Conn → Bytes → Outcome (Bool × Conn)
handle_authentication_request md5_sum creds viper connection message = do
  auth_type ← authentication_type message
  if auth_type == Authentication.clear_text
      then handle_auth_clear_text viper connection
      else if auth_type == Authentication.md5
      then handle_auth_md5 md5_sum creds connection message
      else if auth_type == Authentication.success
      then ok (true, connection)
      else ok (false, connection)
