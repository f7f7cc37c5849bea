-- ===== src/Connect/Login/Sound.antt =====
-- How a login ends, whatever the two sides send.
use crunchy_proxy.Connect.Buffers.{says_ok, slice_to-received, AreBytes}
use crunchy_proxy.Connect.Login.Accepted.{HasAccepted, says_ok-IsAccepted}
use crunchy_proxy.Connect.Dial.{connected}
use crunchy_proxy.Connect.Login.Outcomes.{
  accepted, rejected, finish_login-accepted, finish_login-rejected, relay_login-ends,
  relay_login-answered,
}
use crunchy_proxy.Connect.Login.{
  Login, answered, startup_answered, finish_login, relay_login, authenticate_client,
}
use crunchy_proxy.Connect.Validate.{is_eof}
use crunchy_proxy.Connect.{Conn, send, receive, received, buffer_size}
use crunchy_proxy.Go.{Bytes, IsBytes, Outcome, ok, blocked, IoError, eof, failed, slice_to-eq-ok}
use crunchy_proxy.Prelude.{
  ℕ, zero, suc, ◌+◌, ◌<◌, ◌≤◌, ◌≡◌, ◌≢◌, refl, ◌∙◌, ◌⊎◌, inl, inr, true, false, ◌||◌, Option, none,
  some, List, [], ◌∷◌, ◌==◌, ==_iff, length, take, arith, Bool-cases,
}
use crunchy_proxy.Protocol.Error.Fields.{parse_error_total}
use crunchy_proxy.Protocol.Message.{fill, first_or_zero}
use crunchy_proxy.Protocol.MessageType

-- Authentication without an error on a read of the master that is accepted, or no authentication and
-- an error.
abbrev pub IsSound : Login → List (Bytes × Option IoError) → Type 0
IsSound login reads =
    ((login.authenticated ≡ true) × (login.err ≡ none) × HasAccepted reads)
    ⊎ ((login.authenticated ≡ false) × (login.err ≢ none))

-- A login that goes on for ever, which needs a client whose reads keep failing with another error
-- than `io.EOF`, or one that is sound.
abbrev pub EndsSound : IoError → Outcome (Option Login) → List (Bytes × Option IoError) → Type 0
EndsSound behind o reads =
    ((o ≡ blocked) × (behind ≢ eof))
    ⊎ ((login : Login) × (o ≡ ok (some login)) × IsSound login reads)

weaken :
    (behind : IoError) (o : Outcome (Option Login)) (reads more : List (Bytes × Option IoError))
    → (HasAccepted reads → HasAccepted more)
    → EndsSound behind o reads
    → EndsSound behind o more
weaken behind o reads more f (inl spins) = inl spins
weaken behind o reads more f (inr (login, e, inl (a, n, w))) = inr (login, e, inl (a, n, f w))
weaken behind o reads more f (inr (login, e, inr r)) = inr (login, e, inr r)

along :
    (behind : IoError) (o p : Outcome (Option Login)) (reads : List (Bytes × Option IoError))
    → o ≡ p
    → EndsSound behind p reads
    → EndsSound behind o reads
along behind o p reads e (inl (f, n)) = inl (e ∙ f, n)
along behind o p reads e (inr (login, f, s)) = inr (login, e ∙ f, s)

finish_login-EndsSound :
    (b : Bytes) (err : Option IoError) (client master : Conn)
    (reads : List (Bytes × Option IoError))
    → IsBytes b
    → (says_ok b || first_or_zero b == MessageType.error) ≡ true
    → EndsSound client.behind (finish_login (received (b, err)) client master) ((b, err) ∷ reads)
finish_login-EndsSound b err client master reads h last = elim (Bool-cases (says_ok b)) [
  | inl s ↦ inr (
    accepted b client master,
    finish_login-accepted b err client master h s,
    inl (refl, refl, inl (says_ok-IsAccepted b s)),
  )
  | inr n ↦
      let (e, p) = parse_error_total (fill buffer_size b) in
      inr (
        rejected e b client master,
        finish_login-rejected b err client master h e n
            ((==_iff (first_or_zero b) MessageType.error).0 (rw n at last)) p,
        inr (refl, (λ q. cc)),
      )
]

abbrev LoopEndsSound : ℕ → Type 0
LoopEndsSound fuel =
    (b : Bytes) (err : Option IoError) (client master : Conn)
    (creads mreads : List (Bytes × Option IoError))
    → IsBytes b
    → AreBytes creads
    → AreBytes mreads
    → (client.behind ≢ eof) ⊎ (length creads < fuel)
    → EndsSound client.behind
        (relay_login fuel (received (b, err)) (record client { reads = creads })
          (record master { reads = mreads }))
        ((b, err) ∷ mreads)

fewer :
    {behind : IoError} {n fuel : ℕ}
    → (behind ≢ eof) ⊎ (suc n < suc fuel)
    → (behind ≢ eof) ⊎ (n < fuel)
fewer (inl n) = inl n
fewer (inr less) = inr (omega (arith, less))

fails : failed ≢ eof
fails e = cc

module _ (fuel : ℕ) (loop : LoopEndsSound fuel) (b : Bytes) (err : Option IoError)
    (client master : Conn) where
  -- The rest of the loop, behind the answer `a` of the client.
  next-EndsSound :
      (a : Bytes) (creads mreads : List (Bytes × Option IoError))
      → AreBytes creads
      → AreBytes mreads
      → (client.behind ≢ eof) ⊎ (length creads < fuel)
      → (let master' = (send (record master { reads = mreads }) a).1 in
          EndsSound client.behind
            (relay_login fuel
              (receive master').0
              (record client { reads = creads })
              (receive master').1)
            ((b, err) ∷ mreads))
  unfolding send receive
  next-EndsSound a creads [] hc hm more =
      weaken client.behind _ (([], some master.behind) ∷ []) ((b, err) ∷ []) never
        (loop [] (some master.behind) client (send master a).1 creads [] tt hc tt more)
    where
      never : HasAccepted (([], some master.behind) ∷ []) → HasAccepted ((b, err) ∷ [])
      never (inl w) = absurd (cc w.1)
      never (inr w) = absurd w
  next-EndsSound a creads ((m, merr) ∷ mreads) hc hm more =
      weaken client.behind _ ((m, merr) ∷ mreads) ((b, err) ∷ (m, merr) ∷ mreads) inr
        (loop m merr client (send master a).1 creads mreads hm.0 hc hm.1 more)

  answered-EndsSound :
      (creads mreads : List (Bytes × Option IoError))
      → AreBytes creads
      → AreBytes mreads
      → (client.behind ≢ eof) ⊎ (length creads < suc fuel)
      → (let (answer, client') = receive (record client { reads = creads }) in
          EndsSound client.behind
            (answered
              (relay_login fuel)
              answer
              client'
              (record master { reads = mreads })
              (is_eof answer.err))
            ((b, err) ∷ mreads))
  unfolding answered receive received
  answered-EndsSound [] mreads hc hm more = ended client.behind refl
    where
      ended :
          (e : IoError)
          → e ≡ client.behind
          → EndsSound client.behind
              (answered
                (relay_login fuel)
                (received ([], some e))
                (record client { reads = [] })
                (record master { reads = mreads })
                (is_eof (some e)))
              ((b, err) ∷ mreads)
      ended eof q = inr (_, refl, inr (refl, (λ q. cc)))
      ended failed q =
          along client.behind _ _ ((b, err) ∷ mreads) (rw (slice_to-received [] (some failed)) refl)
            (next-EndsSound (take buffer_size []) [] mreads tt hm (inl (λ e. fails (q ∙ e))))
  answered-EndsSound ((a, some eof) ∷ creads) mreads hc hm more =
      inr (_, refl, inr (refl, (λ q. cc)))
  answered-EndsSound ((a, none) ∷ creads) mreads hc hm more =
      along client.behind _ _ ((b, err) ∷ mreads) (rw (slice_to-received a none) refl)
        (next-EndsSound (take buffer_size a) creads mreads hc.1 hm (fewer more))
  answered-EndsSound ((a, some failed) ∷ creads) mreads hc hm more =
      along client.behind _ _ ((b, err) ∷ mreads) (rw (slice_to-received a (some failed)) refl)
        (next-EndsSound (take buffer_size a) creads mreads hc.1 hm (fewer more))

relay_login-EndsSound : (fuel : ℕ) → LoopEndsSound fuel
unfolding send relay_login
relay_login-EndsSound zero b err client master creads mreads h hc hm (inl n) = inl (refl, n)
relay_login-EndsSound zero b err client master creads mreads h hc hm (inr less) =
    absurd (omega (arith, less))
relay_login-EndsSound (suc fuel) b err client master creads mreads h hc hm more =
    elim (Bool-cases (says_ok b || first_or_zero b == MessageType.error)) [
      | inl s ↦
          along client.behind _ _ ((b, err) ∷ mreads)
            (relay_login-ends b err (record client { reads = creads })
              (record master { reads = mreads }) h fuel s)
            (finish_login-EndsSound b err (record client { reads = creads })
              (record master { reads = mreads }) mreads h s)
      | inr s ↦
          along client.behind _ _ ((b, err) ∷ mreads)
            (relay_login-answered b err (record client { reads = creads })
              (record master { reads = mreads }) h fuel s)
            (answered-EndsSound fuel (relay_login-EndsSound fuel) b err
              (send client (take buffer_size b)).1 master creads mreads hc hm more)
    ]

startup-EndsSound :
    (client master : Conn) (chunk : Bytes) (mreads : List (Bytes × Option IoError))
    → AreBytes client.reads
    → AreBytes mreads
    → (let answer = receive (record master { reads = mreads }) in
        EndsSound client.behind (startup_answered client answer answer.0.err) mreads)
unfolding receive received
startup-EndsSound client master chunk [] hc hm = inr (_, refl, inr (refl, (λ q. cc)))
startup-EndsSound client master chunk ((m, some err) ∷ mreads) hc hm =
    inr (_, refl, inr (refl, (λ q. cc)))
startup-EndsSound client master chunk ((m, none) ∷ mreads) hc hm =
    relay_login-EndsSound (suc (length client.reads + length mreads)) m none client master
      client.reads mreads hm.0 hc hm.1 (inr (omega arith))

-- Once connected to the master, with a startup message that is within its buffer, and whatever bytes
-- the two sides send, where every read returns: `AuthenticateClient` goes on for ever only if the reads of the client end in
-- another error than `io.EOF`. Otherwise either the client is authenticated without an error, and then
-- a read of the master began with the type and the length of an AuthenticationOk message, and with
-- zeros where the code of the message stands, as far as the read went; or it is not authenticated, and
-- then there is an error.
pub authenticate_client-EndsSound :
    (client master : Conn) (message : Bytes) (n : ℕ)
    → n ≤ length message
    → AreBytes client.reads
    → AreBytes master.reads
    → EndsSound client.behind
        (authenticate_client (ok (connected master)) client message n)
        master.reads
unfolding authenticate_client send
authenticate_client-EndsSound client master message n fits hc hm =
    along client.behind _ _ master.reads (rw (slice_to-eq-ok message n fits) refl) (
      startup-EndsSound client (send master (take n message)).1 (take n message) master.reads hc hm)
