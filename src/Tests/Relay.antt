-- ===== src/Tests/Relay.antt =====
-- Concrete answers of a backend, whole and cut.
use crunchy_proxy.Connect.{Received}
use crunchy_proxy.Go.BigEndian.{be32}
use crunchy_proxy.Go.{Bytes, ok, blocked, codes}
use crunchy_proxy.Prelude.{ℕ, ◌-◌, ◌^◌, length, ◌≡◌, refl, List, [], ◌∷◌, ◌++◌, map, none, arith}
use crunchy_proxy.Protocol.Frame.Layout.{frame}
use crunchy_proxy.Protocol.MessageType
use crunchy_proxy.Proxy.Relay.Cut.{header, read, relay_cut_short, relay_spins}
use crunchy_proxy.Proxy.Relay.Scan.{
  Messages, frames, received, IsAnswer, last, earlier, relay-IsAnswer,
}
use crunchy_proxy.Proxy.Relay.{relay, scan}

-- A row in one read, and the rest of the answer in another.
abbrev answer : List Messages
answer =
    ((b'D', codes "row") ∷ [])
    ∷ ((b'C', codes "ok") ∷ (MessageType.ready_for_query, b'I' ∷ []) ∷ [])
    ∷ []

answer-IsAnswer : IsAnswer answer
answer-IsAnswer =
    earlier b'D' (codes "row") [] (omega arith, tt) (omega arith)
      (last b'C' (codes "ok") ((MessageType.ready_for_query, b'I' ∷ []) ∷ [])
        (omega arith, (omega arith, tt)) refl)

abbrev end_of_stream : Received
end_of_stream = record { buffer = 0 ∷ []; length = 0; err = none }

relay-IsAnswer_example :
    relay (map (λ ms. received ms (0 ∷ [])) answer ++ end_of_stream ∷ []) ≡ ok (map frames answer)
relay-IsAnswer_example = relay-IsAnswer (0 ∷ []) (end_of_stream ∷ []) answer-IsAnswer

-- A row whose second half, read on its own, begins with `Z` and four letters.
abbrev half : Bytes
half = header MessageType.ready_for_query 0x61626364 (codes "!")

relay_cut_short_example :
    (header b'D' 15 (codes "row: ") ++ half ≡ frame b'D' (codes "row: " ++ half))
    × (relay
          (read (header b'D' 15 (codes "row: ")) (0 ∷ []) ∷ read half (0 ∷ []) ∷ end_of_stream ∷ [])
        ≡ ok (header b'D' 15 (codes "row: ") ∷ half ∷ []))
unfolding be32
relay_cut_short_example =
    relay_cut_short b'D' 0x61626364 (codes "row: " ++ half) (codes "row: ") (codes "!") (0 ∷ [])
      (end_of_stream ∷ []) (omega arith) (omega arith) refl (omega arith) (omega arith)

-- A row that is cut one byte before a NULL column.
abbrev null_column : Bytes
null_column = header 3 (2 ^ 32 - 1) []

relay_spins_example :
    (header b'D' 11 (0 ∷ 2 ∷ []) ++ null_column ≡ frame b'D' ((0 ∷ 2 ∷ []) ++ null_column))
    × (relay (read (header b'D' 11 (0 ∷ 2 ∷ [])) (0 ∷ []) ∷ read null_column (0 ∷ []) ∷ [])
        ≡ blocked)
    × ((fuel : ℕ) → scan fuel (null_column ++ 0 ∷ []) (length null_column) 0 3 ≡ blocked)
unfolding be32
relay_spins_example =
    relay_spins b'D' 3 ((0 ∷ 2 ∷ []) ++ null_column) (0 ∷ 2 ∷ []) [] (0 ∷ []) [] (omega arith)
      (omega arith) refl
