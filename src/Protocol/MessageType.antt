-- ===== src/Protocol/MessageType.antt =====
-- protocol/protocol.go: the message types, by the names of the source less `MessageType`.
use crunchy_proxy.Prelude.{ℕ}

abbrev pub authentication : ℕ
authentication = b'R'

abbrev pub error : ℕ
error = b'E'

abbrev pub query : ℕ
query = b'Q'

abbrev pub terminate : ℕ
terminate = b'X'

abbrev pub password : ℕ
password = b'p'

abbrev pub ready_for_query : ℕ
ready_for_query = b'Z'
