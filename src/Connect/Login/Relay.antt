-- ===== src/Connect/Login/Relay.antt =====
-- A login relays every message as it is, in both directions, up to the master's last one.
use crunchy_proxy.Connect.Buffers.{says_ok, slice_to-received}
use crunchy_proxy.Connect.Dial.{connected}
use crunchy_proxy.Connect.Login.Outcomes.{
  finish_login-accepted, finish_login-rejected, relay_login-ends, relay_login-answered,
}
use crunchy_proxy.Connect.Login.{reported, answered, finish_login, relay_login, authenticate_client}
use crunchy_proxy.Connect.{Conn, send, receive, received, buffer_size}
use crunchy_proxy.Go.{Bytes, IsBytes, ok, IoError, slice_to-eq-ok}
use crunchy_proxy.Prelude.{
  ℕ, zero, suc, ◌+◌, ◌<◌, ◌≤◌, ◌≡◌, refl, ap, ◌∙◌, true, false, ◌||◌, Option, none, some, List, [],
  ◌∷◌, ◌++◌, map, ◌==◌, length, take, All, arith,
}
use crunchy_proxy.Protocol.Error.{Error, parse_error}
use crunchy_proxy.Protocol.Frame.{get_terminate_message}
use crunchy_proxy.Protocol.Message.{fill, first_or_zero}
use crunchy_proxy.Protocol.MessageType

-- The messages of the master that are answered, each with the answer of the client.
abbrev pub Dialogue : Type 0
Dialogue = List (Bytes × Bytes)

-- What a read takes off at once.
abbrev pub FitsBuffer : Bytes → Type 0
FitsBuffer m = length m ≤ buffer_size

-- No message of the dialogue is one that ends the login.
abbrev pub IsDialogue : Dialogue → Type 0
IsDialogue = All (λ p.
    IsBytes p.0
    × FitsBuffer p.0
    × FitsBuffer p.1
    × ((says_ok p.0 || first_or_zero p.0 == MessageType.error) ≡ false))

-- The master's first message, when `final` is its last.
abbrev pub first_message : Dialogue → Bytes → Bytes
first_message [] final = final
first_message ((m, a) ∷ d) final = m

-- The reads of the master behind the first.
abbrev pub more_messages : Dialogue → Bytes → List (Bytes × Option IoError)
more_messages [] final = []
more_messages ((m, a) ∷ d) final = (first_message d final, none) ∷ more_messages d final

-- The reads of the client, `later` being those behind the login.
abbrev pub answers : Dialogue → List (Bytes × Option IoError) → List (Bytes × Option IoError)
answers [] later = later
answers ((m, a) ∷ d) later = (a, none) ∷ answers d later

-- The connection after the messages were sent on it.
abbrev pub told : Conn → List Bytes → Conn
told c [] = c
told c (m ∷ ms) = told (send c m).1 ms

take_short : (n : ℕ) (m : Bytes) → length m ≤ n → take n m ≡ m
take_short zero [] h = refl
take_short zero (x ∷ m) h = absurd (omega arith)
take_short (suc n) [] h = refl
take_short (suc n) (x ∷ m) h = ap (◌∷◌ x) (take_short n m (omega arith))

relay_login-dialogue :
    (d : Dialogue) (final : Bytes) (later : List (Bytes × Option IoError)) (client master : Conn)
    (fuel : ℕ)
    → IsDialogue d
    → IsBytes final
    → (says_ok final || first_or_zero final == MessageType.error) ≡ true
    → length d < fuel
    → relay_login fuel
        (received (first_message d final, none))
        (record client { reads = answers d later })
        (record master { reads = more_messages d final })
      ≡ finish_login
          (received (final, none))
          (record (told client (map (λ p. p.0) d)) { reads = later })
          (record (told master (map (λ p. p.1) d)) { reads = [] })
unfolding send receive received answered
relay_login-dialogue d final later client master zero i b l h = absurd (omega arith)
relay_login-dialogue [] final later client master (suc fuel) i b l h =
    relay_login-ends final none _ _ b fuel l
relay_login-dialogue ((m, a) ∷ d) final later client master (suc fuel) ((mb, mf, af, ml), i) b l h =
    relay_login-answered m none _ _ mb fuel ml
    ∙ rw (slice_to-received a none, take_short buffer_size m mf, take_short buffer_size a af)
        (relay_login-dialogue d final later (send client m).1 (send master a).1 fuel i b l
          (omega arith))

length-answers :
    (d : Dialogue) (later : List (Bytes × Option IoError)) → length d ≤ length (answers d later)
length-answers [] later = omega arith
length-answers ((m, a) ∷ d) later = omega (arith, length-answers d later)

told-append :
    (c : Conn) (ms : List Bytes) (m : Bytes) → told c (ms ++ m ∷ []) ≡ (send (told c ms) m).1
told-append c [] m = refl
told-append c (n ∷ ms) m = told-append (send c n).1 ms m

module _ (client master : Conn) (message : Bytes) (n : ℕ) (fits : n ≤ length message) (d : Dialogue)
    (final : Bytes) (later : List (Bytes × Option IoError)) (i : IsDialogue d) (b : IsBytes final)
    (f : FitsBuffer final) where
  -- The two sides of the login.
  abbrev client_side : Conn
  client_side = record client { reads = answers d later }

  abbrev master_side : Conn
  master_side = record master { reads = (first_message d final, none) ∷ more_messages d final }

  authenticate_client-finishes :
      (says_ok final || first_or_zero final == MessageType.error) ≡ true
      → authenticate_client (ok (connected master_side)) client_side message n
        ≡ finish_login
            (received (final, none))
            (record (told client (map (λ p. p.0) d)) { reads = later })
            (record (told master (take n message ∷ map (λ p. p.1) d)) { reads = [] })
  unfolding authenticate_client send receive received
  authenticate_client-finishes l = rw (slice_to-eq-ok message n fits) (
      relay_login-dialogue d final later client (send master (take n message)).1
        (suc (length (answers d later) + length (more_messages d final))) i b l
        (omega (arith, length-answers d later)))

  -- When the master ends a dialogue of messages that fit the buffer with a message that the zeroed
  -- buffer takes for AuthenticationOk, the client is authenticated. It was sent the master's messages, and the master the startup message
  -- and the client's answers, each as it was read and in order; then the master is told to
  -- terminate, and its connection is closed.
  pub authenticate_client-accepted :
      says_ok final ≡ true
      → authenticate_client (ok (connected master_side)) client_side message n
        ≡ ok (
            some (record {
              authenticated = true;
              err = none;
              client = record (told client (map (λ p. p.0) d ++ final ∷ [])) { reads = later };
              master =
                  some
                    (record (told master
                      (take n message ∷ (map (λ p. p.1) d ++ get_terminate_message ∷ []))) {
                        reads = [];
                        closed = true;
                      });
            }))
  unfolding send
  authenticate_client-accepted s =
      authenticate_client-finishes (ap (λ t. t || first_or_zero final == MessageType.error) s)
      ∙ finish_login-accepted final none _ _ b s
      ∙ rw
          (
            take_short buffer_size final f,
            told-append client (map (λ p. p.0) d) final,
            told-append (send master (take n message)).1 (map (λ p. p.1) d) get_terminate_message,
          )
          refl

  -- When the master ends a dialogue of messages that fit the buffer with an error message, the
  -- client is not authenticated, and the error is the one that the message reports. The client was
  -- sent the master's messages, the last included, and the master the startup message and the
  -- client's answers; its connection is closed.
  pub authenticate_client-rejected :
      (e : Error)
      → says_ok final ≡ false
      → first_or_zero final ≡ MessageType.error
      → parse_error (fill buffer_size final) ≡ ok e
      → authenticate_client (ok (connected master_side)) client_side message n
        ≡ ok (
            some (record {
              authenticated = false;
              err = some (reported e);
              client = record (told client (map (λ p. p.0) d ++ final ∷ [])) { reads = later };
              master = some (record (told master (take n message ∷ map (λ p. p.1) d)) {
                reads = [];
                closed = true;
              });
            }))
  unfolding send
  authenticate_client-rejected e s t p =
      authenticate_client-finishes (rw (s, t) refl)
      ∙ finish_login-rejected final none _ _ b e s t p
      ∙ rw (take_short buffer_size final f, told-append client (map (λ p. p.0) d) final) refl
