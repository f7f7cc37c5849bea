-- ===== src/Protocol/Frame.antt =====
-- protocol/protocol.go: the constants of the protocol and the functions that look into a message.
pub mod Layout
use crunchy_proxy.Go.BigEndian.{uint32, be32}
use crunchy_proxy.Go.{Bytes, Outcome, ok, ◌>>=◌, index, slice}
use crunchy_proxy.Protocol.Authentication
use crunchy_proxy.Protocol.MessageType
use crunchy_proxy.Prelude.{ℕ, Bool, false, not, ◌&&◌, ◌∷◌, ◌==◌, if◌then◌else◌}

-- `ProtocolVersion`
abbrev pub protocol_version : ℕ
protocol_version = 196608

-- `SSLRequestCode`
abbrev pub ssl_request_code : ℕ
ssl_request_code = 80877103

-- `SSLAllowed`, `SSLNotAllowed`
abbrev pub ssl_allowed : ℕ
ssl_allowed = b'S'

abbrev pub ssl_not_allowed : ℕ
ssl_not_allowed = b'N'

unfoldable pub get_version : Bytes → Outcome ℕ
get_version message = do code ← slice message 4 8; uint32 code

unfoldable pub get_message_type : Bytes → Outcome ℕ
get_message_type message = index message 0

unfoldable pub get_message_length : Bytes → Outcome ℕ
get_message_length message = do length_bytes ← slice message 1 5; uint32 length_bytes

-- `IsAuthenticationOk` after its first test: the length is 8 and the value `AuthenticationOk`.
value_is_ok : Bytes → Outcome Bool
unfolding get_message_length
value_is_ok message = do
  message_length ← get_message_length message
  value_bytes ← slice message 5 9
  message_value ← uint32 value_bytes
  ok (message_length == 8 && message_value == Authentication.success)

unfoldable pub is_authentication_ok : Bytes → Outcome Bool
unfolding get_message_type value_is_ok
is_authentication_ok message = do
  message_type ← get_message_type message
  if not (message_type == MessageType.authentication) then ok false else value_is_ok message

unfoldable pub get_terminate_message : Bytes
get_terminate_message = b'X' ∷ be32 4
