-- ===== src/Connect/Login/Cut.antt =====
-- Logins that the code gets wrong: a request that is cut, and a client whose reads keep failing.
use crunchy_proxy.Connect.Buffers.{says_ok}
use crunchy_proxy.Go.{Bytes}
use crunchy_proxy.Prelude.{◌≡◌, false, ◌||◌, ◌==◌, [], ◌∷◌}
use crunchy_proxy.Protocol.Message.{first_or_zero}
use crunchy_proxy.Protocol.MessageType

-- The head of a request for a password of the kind `code`, without the code.
abbrev pub request_head : Bytes
request_head = b'R' ∷ 0 ∷ 0 ∷ 0 ∷ 8 ∷ []

abbrev Goes : Bytes → Type 0
Goes m = (says_ok m || first_or_zero m == MessageType.error) ≡ false
