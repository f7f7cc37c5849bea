-- ===== src/Protocol/Frame/Layout.antt =====
-- The layout of a message, as the PostgreSQL protocol gives it: a type byte, the length of what
-- follows with the length's own four bytes counted, and the body. A startup message has no type.
use crunchy_proxy.Go.BigEndian.{uint32, be32, put_uint32}
use crunchy_proxy.Go.{
  Bytes, Outcome, IsBytes, ok, equal, index, slice, slice_from-eq-ok, slice-eq-ok,
}
use crunchy_proxy.Prelude.{
  ℕ, ◌+◌, ◌%◌, ◌^◌, ◌≤◌, ◌<◌, ◌≡◌, refl, ap, ◌∷◌, ◌++◌, arith, ◌*◌, ◌==◌, ◌&&◌, length, take,
}
use crunchy_proxy.Protocol.Authentication
use crunchy_proxy.Protocol.Frame.{
  get_message_type, get_message_length, value_is_ok, is_authentication_ok,
}
use crunchy_proxy.Protocol.Message.Laws.{holding}
use crunchy_proxy.Protocol.Message.{
  result_of, and_then, get_bytes, reset_length, length_offset, length_offset_startup,
}
use crunchy_proxy.Protocol.MessageType

abbrev pub startup_frame : Bytes → Bytes
startup_frame body = be32 (4 + length body) ++ body

abbrev pub frame : ℕ → Bytes → Bytes
frame message_type body = message_type ∷ startup_frame body

be32-mod : (v w : ℕ) → v ≡ w → be32 (v % 2 ^ 32) ≡ be32 w
unfolding be32
be32-mod v w e = ground arith

pub get_message_type-frame :
    (t : ℕ) (body rest : Bytes) → get_message_type (frame t body ++ rest) ≡ ok t
unfolding get_message_type index
get_message_type-frame t body rest = refl

pub get_message_length-frame :
    (t : ℕ) (body rest : Bytes)
    → 4 + length body < 2 ^ 32
    → get_message_length (frame t body ++ rest) ≡ ok (4 + length body)
unfolding get_message_length uint32 be32
get_message_length-frame t body rest h =
    rw (slice-eq-ok (frame t body ++ rest) 1 5 (omega arith) (omega arith), get_message_length)
      (ap ok (omega arith))

-- `ResetLength` completes a message that was begun with a length of zero.
reset_length-startup_frame :
    (body : Bytes)
    → reset_length length_offset_startup (holding (0 ∷ 0 ∷ 0 ∷ 0 ∷ body))
      ≡ ok (tt, holding (startup_frame body))
unfolding reset_length put_uint32
reset_length-startup_frame body =
    rw (slice_from-eq-ok (0 ∷ 0 ∷ 0 ∷ 0 ∷ body) 0 (omega arith), reset_length)
      (ap (λ w. ok (tt, holding (w ++ body))) (be32-mod _ _ (omega arith)))

reset_length-frame :
    (t : ℕ) (body : Bytes)
    → reset_length length_offset (holding (t ∷ 0 ∷ 0 ∷ 0 ∷ 0 ∷ body))
      ≡ ok (tt, holding (frame t body))
unfolding reset_length put_uint32
reset_length-frame t body =
    rw (slice_from-eq-ok (t ∷ 0 ∷ 0 ∷ 0 ∷ 0 ∷ body) 1 (omega arith), reset_length)
      (ap (λ w. ok (tt, holding (t ∷ (w ++ body)))) (be32-mod _ _ (omega arith)))

-- The last two statements of each function that builds a message.
abbrev pub finish : ℕ → Bytes → Outcome Bytes
finish offset b = result_of (and_then (reset_length offset (holding b)) (λ _. get_bytes))

pub finish-startup_frame :
    {b : Bytes} (body : Bytes)
    → b ≡ 0 ∷ 0 ∷ 0 ∷ 0 ∷ body
    → finish length_offset_startup b ≡ ok (startup_frame body)
unfolding get_bytes
finish-startup_frame body e =
    rw e (ap (λ o. result_of (and_then o (λ _. get_bytes))) (reset_length-startup_frame body))

pub finish-frame :
    {b : Bytes} (t : ℕ) (body : Bytes)
    → b ≡ t ∷ 0 ∷ 0 ∷ 0 ∷ 0 ∷ body
    → finish length_offset b ≡ ok (frame t body)
unfolding get_bytes
finish-frame t body e =
    rw e (ap (λ o. result_of (and_then o (λ _. get_bytes))) (reset_length-frame t body))

word-eq-small :
    (a b c d n : ℕ)
    → a < 256
    → b < 256
    → c < 256
    → d < 256
    → n < 256
    → (a * 2 ^ 24 + b * 2 ^ 16 + c * 2 ^ 8 + d == n) ≡ (a == 0 && (b == 0 && (c == 0 && d == n)))
word-eq-small a b c d n ha hb hc hd hn = ground arith

-- On a message of at least nine elements, all of them bytes, `IsAuthenticationOk` answers whether
-- its first nine are the AuthenticationOk message.
pub is_authentication_ok_exact :
    (m : Bytes)
    → IsBytes m
    → 9 ≤ length m
    → is_authentication_ok m
      ≡ ok (equal (take 9 m) (frame MessageType.authentication (be32 Authentication.success)))
unfolding is_authentication_ok value_is_ok get_message_length get_message_type be32 uint32 slice
    index equal
is_authentication_ok_exact (a ∷ b ∷ c ∷ d ∷ e ∷ f ∷ g ∷ h ∷ i ∷ m) bytes long =
    ground (arith, word-eq-small b c d e 8, word-eq-small f g h i 0)
is_authentication_ok_exact _ bytes long = absurd (omega arith)

pub length-frame : (t : ℕ) (body : Bytes) → length (frame t body) ≡ 5 + length body
unfolding be32
length-frame t body = omega arith
