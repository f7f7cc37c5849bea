-- ===== src/Proxy/Relay/Cut.antt =====
-- The answer of a backend in which the end of a read cuts a message. The exchange takes the next read
-- for the beginning of a message.
use crunchy_proxy.Connect.{Received}
use crunchy_proxy.Go.BigEndian.{uint32, be32}
use crunchy_proxy.Go.{
  Bytes, ok, blocked, ◌>>=◌, slice_from-eq-ok, slice_to-eq-ok, slice-eq-ok, index,
}
use crunchy_proxy.Prelude.{
  ℕ, zero, suc, ◌+◌, ◌-◌, ◌^◌, ◌≤◌, ◌<◌, ◌≡◌, ◌≢◌, refl, ap, sym, ◌∙◌, List, [], ◌∷◌, ◌++◌, arith,
  ==_false, length, length-append, take-append, append_assoc, none,
}
use crunchy_proxy.Protocol.Frame.Layout.{frame}
use crunchy_proxy.Protocol.Frame.{get_message_type, get_message_length}
use crunchy_proxy.Protocol.MessageType
use crunchy_proxy.Proxy.Relay.Scan.{next_start-small, scan-advance, scan_ends}
use crunchy_proxy.Proxy.Relay.{next_start, advance, scan, relay_round, send_first, relay}

-- What begins like a message of type `t` and length `n`.
abbrev pub header : ℕ → ℕ → Bytes → Bytes
header t n rest = t ∷ be32 n ++ rest

-- A read that brings `chunk`
abbrev pub read : Bytes → Bytes → Received
read chunk pad = record { buffer = chunk ++ pad; length = length chunk; err = none }

length-header : (t n : ℕ) (rest : Bytes) → length (header t n rest) ≡ 5 + length rest
unfolding be32
length-header t n rest = omega arith

get_message_type-header : (t n : ℕ) (rest : Bytes) → get_message_type (header t n rest) ≡ ok t
unfolding get_message_type index
get_message_type-header t n rest = refl

get_message_length-header :
    (t n : ℕ) (rest : Bytes) → n < 2 ^ 32 → get_message_length (header t n rest) ≡ ok n
unfolding get_message_length uint32 be32
get_message_length-header t n rest h =
    rw (slice-eq-ok (header t n rest) 1 5 (omega arith) (omega arith), get_message_length)
      (ap ok (omega arith))

advance-header :
    (t n start : ℕ) (rest : Bytes)
    → n < 2 ^ 32
    → next_start 0 n ≡ ok start
    → advance (header t n rest) 0 ≡ ok (t, start)
unfolding advance
advance-header t n start rest h e =
    rw (slice_from-eq-ok (header t n rest) 0 (omega arith), advance)
      (rw (get_message_type-header t n rest, get_message_length-header t n rest h, e) refl)

relay_round-scan :
    (t n : ℕ) (rest pad : Bytes)
    → relay_round (read (header t n rest) pad) ≡ (
        scan
          (suc (length (header t n rest)))
          (header t n rest ++ pad)
          (length (header t n rest))
          0
          t
        >>= λ u. ok (header t n rest, u))
unfolding relay_round
relay_round-scan t n rest pad =
    rw
      (
        slice_to-eq-ok (header t n rest ++ pad) (length (header t n rest))
            (omega (arith, length-append (header t n rest) pad)),
        relay_round,
      )
      (rw (take-append (header t n rest) pad, relay_round)
        (rw (get_message_type-header t n rest, relay_round) refl))

header-append : (t n : ℕ) (rest pad : Bytes) → header t n rest ++ pad ≡ header t n (rest ++ pad)
header-append t n rest pad = ap (◌∷◌ t) (append_assoc (be32 n) rest pad)

-- A read that is no longer than the message that its beginning announces: its type is the last one.
relay_round-one :
    (t n : ℕ) (rest pad : Bytes)
    → n < 2 ^ 31
    → 4 + length rest ≤ n
    → relay_round (read (header t n rest) pad) ≡ ok (header t n rest, t)
relay_round-one t n rest pad small long =
    relay_round-scan t n rest pad
    ∙ ap (λ o. o >>= λ u. ok (header t n rest, u))
        (scan-advance _ (header t n rest ++ pad) (length (header t n rest)) 0 t t (0 + n + 1)
            (omega (arith, length-header t n rest))
            (ap (λ m. advance m 0) (header-append t n rest pad)
              ∙ advance-header t n (0 + n + 1) (rest ++ pad) (omega arith)
                  (next_start-small 0 n small))
          ∙ scan_ends _ (header t n rest ++ pad) (length (header t n rest)) (0 + n + 1) t
              (omega (arith, length-header t n rest)))

relay-first :
    (r : Received) (chunk : Bytes) (t : ℕ) (later : List Received)
    → relay_round r ≡ ok (chunk, t)
    → t ≢ MessageType.ready_for_query
    → relay (r ∷ later) ≡ send_first chunk (relay later)
unfolding relay
relay-first r chunk t later e n =
    rw (e, relay) (rw (==_false t MessageType.ready_for_query n, relay))

relay-last :
    (r : Received) (chunk : Bytes) (later : List Received)
    → relay_round r ≡ ok (chunk, MessageType.ready_for_query)
    → relay (r ∷ later) ≡ ok (chunk ∷ [])
unfolding relay
relay-last r chunk later e = rw (e, relay) refl

relay-blocked :
    (r : Received) (later : List Received) → relay_round r ≡ blocked → relay (r ∷ later) ≡ blocked
unfolding relay
relay-blocked r later e = rw (e, relay) refl

-- When the end of a read cuts a message whose other part begins with the letter of ReadyForQuery and
-- the number of a length that reaches the end of the next read, then the exchange ends with that read:
-- the rest of the answer is left in the connection, though the backend has sent no ReadyForQuery.
pub relay_cut_short :
    (t m : ℕ) (body first more pad : Bytes) (later : List Received)
    → t ≢ MessageType.ready_for_query
    → 4 + length body < 2 ^ 31
    → body ≡ first ++ header MessageType.ready_for_query m more
    → m < 2 ^ 31
    → 4 + length more ≤ m
    → (let begun = header t (4 + length body) first in
        let rest = header MessageType.ready_for_query m more in
        (begun ++ rest ≡ frame t body)
        × (relay (read begun pad ∷ read rest pad ∷ later) ≡ ok (begun ∷ rest ∷ [])))
relay_cut_short t m body first more pad later n small cut small' long =
    let begun = header t (4 + length body) first in
    let rest = header MessageType.ready_for_query m more in
    (
      header-append t (4 + length body) first rest ∙ ap (header t (4 + length body)) (sym cut),
      relay-first (read begun pad) begun t (read rest pad ∷ later)
            (relay_round-one t (4 + length body) first pad small
              (omega (arith, ap length cut, length-append first rest)))
            n
          ∙ ap (send_first begun) (
              relay-last (read rest pad) rest later
                (relay_round-one MessageType.ready_for_query m more pad small' long)),
    )

-- A length of -1 leads back to the start of the message.
next_start-back : next_start 0 (2 ^ 32 - 1) ≡ ok 0
unfolding next_start
next_start-back = refl

scan-spins :
    (fuel t t' len : ℕ) (rest : Bytes)
    → 0 < len
    → scan fuel (header t (2 ^ 32 - 1) rest) len 0 t' ≡ blocked
unfolding scan
scan-spins zero t t' len rest h = refl
scan-spins (suc fuel) t t' len rest h =
    scan-advance fuel (header t (2 ^ 32 - 1) rest) len 0 t' t 0 h
      (advance-header t (2 ^ 32 - 1) 0 rest (omega arith) next_start-back)
    ∙ scan-spins fuel t t len rest h

-- When the end of a read cuts a message behind whose next byte there are four bytes 255, as a NULL
-- column has them, then the loop over the messages of the next read does not end, on whatever fuel: it
-- comes back to the start of the read, and nothing of it is passed on.
pub relay_spins :
    (t c : ℕ) (body first more pad : Bytes) (later : List Received)
    → t ≢ MessageType.ready_for_query
    → 4 + length body < 2 ^ 31
    → body ≡ first ++ header c (2 ^ 32 - 1) more
    → (let begun = header t (4 + length body) first in
        let rest = header c (2 ^ 32 - 1) more in
        (begun ++ rest ≡ frame t body)
        × (relay (read begun pad ∷ read rest pad ∷ later) ≡ blocked)
        × ((fuel : ℕ) → scan fuel (rest ++ pad) (length rest) 0 c ≡ blocked))
relay_spins t c body first more pad later n small cut =
    let begun = header t (4 + length body) first in
    let rest = header c (2 ^ 32 - 1) more in
    (
      header-append t (4 + length body) first rest ∙ ap (header t (4 + length body)) (sym cut),
      relay-first (read begun pad) begun t (read rest pad ∷ later)
            (relay_round-one t (4 + length body) first pad small
              (omega (arith, ap length cut, length-append first rest)))
            n
          ∙ ap (send_first begun) (
              relay-blocked (read rest pad) later (
                relay_round-scan c (2 ^ 32 - 1) more pad
                ∙ ap (λ o. o >>= λ u. ok (rest, u)) (spin _))),
      spin,
    )
  where
    spin :
        (fuel : ℕ)
        → scan fuel (header c (2 ^ 32 - 1) more ++ pad) (length (header c (2 ^ 32 - 1) more)) 0 c
          ≡ blocked
    spin fuel =
        ap (λ m. scan fuel m (length (header c (2 ^ 32 - 1) more)) 0 c)
          (header-append c (2 ^ 32 - 1) more pad)
        ∙ scan-spins fuel c c (length (header c (2 ^ 32 - 1) more)) (more ++ pad)
            (omega (arith, length-header c (2 ^ 32 - 1) more))
