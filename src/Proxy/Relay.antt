-- ===== src/Proxy/Relay.antt =====
-- proxy/proxy.go, the exchange of one query in `HandleConnection`: the query goes to the backend, and
-- what the backend answers goes to the client until a ReadyForQuery message has passed. The reads
-- from the backend are a list; where the list ends, the handler waits.
pub mod Scan
pub mod Cut
pub mod Fuel
use crunchy_proxy.Connect.{Received}
use crunchy_proxy.Go.{Bytes, Outcome, ok, panic, blocked, ◌>>=◌, slice_from, slice_to}
use crunchy_proxy.Prelude.{
  ℕ, zero, suc, ◌+◌, ◌-◌, ◌^◌, Bool, true, false, List, [], ◌∷◌, ◌==◌, ltb, leb, if◌then◌else◌,
}
use crunchy_proxy.Protocol.Frame.{get_message_type, get_message_length}
use crunchy_proxy.Protocol.MessageType

-- `start + int(messageLength) + 1`, for an int32 given by its bit pattern. A negative start would pass
-- the loop's test, and panic in the slice expression behind it.
unfoldable pub next_start : ℕ → ℕ → Outcome ℕ
next_start start n =
    if ltb n (2 ^ 31)
    then ok (start + n + 1)
    else if leb (2 ^ 32) (start + 1 + n)
    then ok (start + 1 + n - 2 ^ 32)
    else panic

-- The body of the loop over the messages in the buffer: the type of the message at `start`, and the
-- next start.
unfoldable pub advance : Bytes → ℕ → Outcome (ℕ × ℕ)
advance message start = do
  rest ← slice_from message start
  message_type ← get_message_type rest
  message_length ← get_message_length rest
  start' ← next_start start message_length
  ok (message_type, start')

-- The loop, and the type of the last message. Without fuel it counts as a loop that does not end: the
-- next start depends on the start alone, so that more rounds than there are starts below `length`
-- come to one of them twice.
unfoldable pub scan : ℕ → Bytes → ℕ → ℕ → ℕ → Outcome ℕ
scan zero message length start message_type = blocked
scan (suc fuel) message length start message_type = elim (ltb start length) [
  | false ↦ ok message_type
  | true ↦ advance message start >>= λ x. scan fuel message length x.1 x.0
]

-- One round of the loop: the bytes sent to the client, and the type of the last message. An error of
-- `Receive` or of `Send` only sets `done`, which is set anew at the end of the round.
unfoldable pub relay_round : Received → Outcome (Bytes × ℕ)
relay_round r = do
  chunk ← slice_to r.buffer r.length
  message_type ← get_message_type chunk
  message_type ← scan (suc r.length) r.buffer r.length 0 message_type
  ok (chunk, message_type)

abbrev pub send_first : Bytes → Outcome (List Bytes) → Outcome (List Bytes)
send_first chunk rest = rest >>= λ chunks. ok (chunk ∷ chunks)

-- `for !done`: what is sent to the client, in order.
unfoldable pub relay : List Received → Outcome (List Bytes)
relay [] = blocked
relay (r ∷ rs) = relay_round r >>= λ x.
    if x.1 == MessageType.ready_for_query then ok (x.0 ∷ []) else send_first x.0 (relay rs)
