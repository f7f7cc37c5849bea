-- ===== src/Proxy/Relay/Scan.antt =====
-- The answer of a backend that sends whole messages.
use crunchy_proxy.Connect.{Received}
use crunchy_proxy.Go.{Bytes, ok, panic, ◌>>=◌, slice_from-eq-ok, slice_to-eq-ok, index}
use crunchy_proxy.Prelude.{
  ℕ, zero, suc, ◌+◌, ◌^◌, ◌≤◌, ◌<◌, ◌≡◌, ◌≢◌, refl, sym, ap, ◌∙◌, List, [], ◌∷◌, ◌++◌, arith,
  lt→ltb, le→ltb, ==_false, length, length-append, take-append, drop-append, append_assoc, map,
  none,
}
use crunchy_proxy.Protocol.Frame.Layout.{
  frame, get_message_type-frame, get_message_length-frame, length-frame,
}
use crunchy_proxy.Protocol.Frame.{get_message_type}
use crunchy_proxy.Protocol.MessageType
use crunchy_proxy.Proxy.Relay.{next_start, advance, scan, relay_round, send_first, relay}

-- Messages as type and body.
abbrev pub Messages : Type 0
Messages = List (ℕ × Bytes)

abbrev pub frames : Messages → Bytes
frames [] = []
frames ((t, body) ∷ ms) = frame t body ++ frames ms

-- The lengths are int32 values.
abbrev pub AreSmall : Messages → Type 0
AreSmall [] = Unit {0}
AreSmall ((t, body) ∷ ms) = (4 + length body < 2 ^ 31) × AreSmall ms

abbrev pub last_type : ℕ → Messages → ℕ
last_type t [] = t
last_type t ((t', _) ∷ ms) = last_type t' ms

pub next_start-small : (start n : ℕ) → n < 2 ^ 31 → next_start start n ≡ ok (start + n + 1)
unfolding next_start
next_start-small start n h = ground arith

advance-frame :
    (pre : Bytes) (t : ℕ) (body rest : Bytes)
    → 4 + length body < 2 ^ 31
    → advance (pre ++ (frame t body ++ rest)) (length pre)
      ≡ ok (t, length pre + (4 + length body) + 1)
unfolding advance
advance-frame pre t body rest small =
    rw
      (
        slice_from-eq-ok (pre ++ (frame t body ++ rest)) (length pre)
            (omega (arith, length-append pre (frame t body ++ rest))),
        advance,
      )
      (rw (drop-append pre (frame t body ++ rest), advance)
        (rw (
          get_message_type-frame t body rest,
          get_message_length-frame t body rest (omega arith),
          next_start-small (length pre) (4 + length body) small,
        )))

pub scan_ends :
    (fuel : ℕ) (message : Bytes) (len start t : ℕ)
    → len ≤ start
    → scan (suc fuel) message len start t ≡ ok t
unfolding scan
scan_ends fuel message len start t h = rw (le→ltb len start h, scan)

pub scan-advance :
    (fuel : ℕ) (message : Bytes) (len start t t' start' : ℕ)
    → start < len
    → advance message start ≡ ok (t', start')
    → scan (suc fuel) message len start t ≡ scan fuel message len start' t'
unfolding scan
scan-advance fuel message len start t t' start' h e =
    rw (lt→ltb start len h, scan) (ap (λ o. o >>= λ x. scan fuel message len x.1 x.0) e)

pub scan-frames :
    (ms : Messages) (fuel : ℕ) (pre pad : Bytes) (t len start : ℕ)
    → length ms < fuel
    → AreSmall ms
    → start ≡ length pre
    → len ≡ length pre + length (frames ms)
    → scan fuel (pre ++ (frames ms ++ pad)) len start t ≡ ok (last_type t ms)
scan-frames [] (suc fuel) pre pad t len start f a s l = scan_ends fuel _ len start t (omega arith)
scan-frames ((t', body) ∷ ms) (suc fuel) pre pad t len start f a s l =
    ap (λ m. scan (suc fuel) (pre ++ m) len start t) (append_assoc (frame t' body) (frames ms) pad)
    ∙ scan-advance fuel _ len start t t' start' inside
        (rw s (advance-frame pre t' body (frames ms ++ pad) a.0))
    ∙ ap (λ m. scan fuel m len start' t')
        (sym (append_assoc pre (frame t' body) (frames ms ++ pad)))
    ∙ scan-frames ms fuel (pre ++ frame t' body) pad t' len start' (omega arith) a.1
        (omega (arith, length-append pre (frame t' body), length-frame t' body))
        (omega
          (arith, l, length-append pre (frame t' body), length-append (frame t' body) (frames ms)))
  where
    start' : ℕ
    start' = length pre + (4 + length body) + 1

    inside : start < len
    inside = omega (arith, s, l, length-append (frame t' body) (frames ms), length-frame t' body)
scan-frames _ zero pre pad t len start f a s l = absurd (omega arith)

length-messages-le : (ms : Messages) → length ms ≤ length (frames ms)
length-messages-le [] = omega arith
length-messages-le ((t, body) ∷ ms) =
    omega
      (arith, length-append (frame t body) (frames ms), length-frame t body, length-messages-le ms)

-- What `Receive` returns when the backend has sent the messages `m ∷ ms`, whole.
abbrev pub received : Messages → Bytes → Received
received ms pad = record { buffer = frames ms ++ pad; length = length (frames ms); err = none }

pub relay_round-frames :
    (t : ℕ) (body : Bytes) (ms : Messages) (pad : Bytes)
    → AreSmall ((t, body) ∷ ms)
    → relay_round (received ((t, body) ∷ ms) pad) ≡ ok (frames ((t, body) ∷ ms), last_type t ms)
unfolding relay_round
relay_round-frames t body ms pad a =
    rw
      (slice_to-eq-ok (all ++ pad) (length all) (omega (arith, length-append all pad)), relay_round)
      (rw (take-append all pad, relay_round)
        (rw (get_message_type-frame t body (frames ms), relay_round)
          (ap (λ o. o >>= λ u. ok (all, u))
            (scan-frames ((t, body) ∷ ms) (suc (length all)) [] pad t (length all) 0
              (omega (arith, length-messages-le ((t, body) ∷ ms))) a refl (omega arith)))))
  where
    all : Bytes
    all = frames ((t, body) ∷ ms)

-- The answer of a backend in several reads: none but the last ends with a ReadyForQuery message.
pub data IsAnswer : List Messages → Type 0 where
  last :
      (t : ℕ) (body : Bytes) (ms : Messages)
      → AreSmall ((t, body) ∷ ms)
      → last_type t ms ≡ MessageType.ready_for_query
      → IsAnswer (((t, body) ∷ ms) ∷ [])
  earlier :
      {rest : List Messages} (t : ℕ) (body : Bytes) (ms : Messages)
      → AreSmall ((t, body) ∷ ms)
      → last_type t ms ≢ MessageType.ready_for_query
      → IsAnswer rest
      → IsAnswer (((t, body) ∷ ms) ∷ rest)

-- If each read from the backend brings whole messages whose lengths are int32 values, and the last
-- message of the last read alone is a ReadyForQuery at the end of a read, then the exchange ends
-- with that read, and the client is sent what the backend sent, no more and no less, in order,
-- whatever stands in the buffers behind it and whatever the backend sends later.
pub relay-IsAnswer :
    {answer : List Messages} (pad : Bytes) (later : List Received)
    → IsAnswer answer
    → relay (map (λ ms. received ms pad) answer ++ later) ≡ ok (map frames answer)
unfolding relay
relay-IsAnswer pad later (last t body ms a e) =
    rw (relay_round-frames t body ms pad a, relay) (rw (e, relay))
relay-IsAnswer pad later (earlier t body ms a e rest) =
    rw (relay_round-frames t body ms pad a, relay)
      (rw (==_false (last_type t ms) MessageType.ready_for_query e, relay)
        (ap (send_first (frames ((t, body) ∷ ms))) (relay-IsAnswer pad later rest)))

-- A read that brings nothing panics in `GetMessageType`: so does the end of the backend's stream.
pub relay_round_empty : (r : Received) → r.length ≡ 0 → relay_round r ≡ panic
unfolding relay_round get_message_type index
relay_round_empty r e =
    rw (e, relay_round) (rw (slice_to-eq-ok r.buffer 0 (omega arith), relay_round))
