-- ===== src/Connect/Login/Outcomes.antt =====
-- How the loop of a login goes on or ends, by the last message of the master.
use crunchy_proxy.Connect.Buffers.{
  says_ok, is_authentication_ok-fill, get_message_type-fill, slice_to-received,
}
use crunchy_proxy.Connect.Login.{Login, login_round, answered, reported, finish_login, relay_login}
use crunchy_proxy.Connect.{Conn, send, receive, received, buffer_size}
use crunchy_proxy.Go.{Bytes, IsBytes, ok, IoError}
use crunchy_proxy.Prelude.{
  ℕ, suc, ◌≡◌, refl, ap, ◌∙◌, Bool, true, false, ◌||◌, Option, none, some, ◌==◌, take, arith,
}
use crunchy_proxy.Protocol.Error.{Error, parse_error}
use crunchy_proxy.Protocol.Frame.{get_terminate_message}
use crunchy_proxy.Protocol.Message.{fill, first_or_zero}
use crunchy_proxy.Connect.Validate.{is_eof}
use crunchy_proxy.Protocol.MessageType

-- The end of a login that the master accepts with `b`, which goes to the client.
abbrev pub accepted : Bytes → Conn → Conn → Login
accepted b client master = record {
  authenticated = true;
  err = none;
  client = (send client (take buffer_size b)).1;
  master = some (record (send master get_terminate_message).1 { closed = true });
}

-- The end of a login that the master refuses with `b`, which reports `e`.
abbrev pub rejected : Error → Bytes → Conn → Conn → Login
rejected e b client master = record {
  authenticated = false;
  err = some (reported e);
  client = (send client (take buffer_size b)).1;
  master = some (record master { closed = true });
}

module _ (b : Bytes) (err : Option IoError) (client master : Conn) (h : IsBytes b) where
  pub finish_login-accepted :
      says_ok b ≡ true
      → finish_login (received (b, err)) client master ≡ ok (some (accepted b client master))
  unfolding finish_login received
  finish_login-accepted s = rw (is_authentication_ok-fill b h, s, slice_to-received b err) refl

  pub finish_login-rejected :
      (e : Error)
      → says_ok b ≡ false
      → first_or_zero b ≡ MessageType.error
      → parse_error (fill buffer_size b) ≡ ok e
      → finish_login (received (b, err)) client master ≡ ok (some (rejected e b client master))
  unfolding finish_login received
  finish_login-rejected e s t p =
      rw
        (
          is_authentication_ok-fill b h,
          s,
          get_message_type-fill buffer_size b (omega arith),
          t,
          p,
          slice_to-received b err,
        )
        refl

  -- Does the message end the loop?
  abbrev pub is_last : Bool
  is_last = says_ok b || first_or_zero b == MessageType.error

  relay_login-round :
      (fuel : ℕ)
      → relay_login (suc fuel) (received (b, err)) client master
        ≡ login_round (relay_login fuel) (received (b, err)) client master is_last
  unfolding relay_login received
  relay_login-round fuel =
      rw (is_authentication_ok-fill b h, get_message_type-fill buffer_size b (omega arith)) refl

  pub relay_login-ends :
      (fuel : ℕ)
      → is_last ≡ true
      → relay_login (suc fuel) (received (b, err)) client master
        ≡ finish_login (received (b, err)) client master
  unfolding login_round
  relay_login-ends fuel s =
      relay_login-round fuel
      ∙ ap (login_round (relay_login fuel) (received (b, err)) client master) s

  -- A round that goes on to the answer of the client.
  pub relay_login-answered :
      (fuel : ℕ)
      → is_last ≡ false
      → relay_login (suc fuel) (received (b, err)) client master ≡ (
          let (answer, client') = receive (send client (take buffer_size b)).1 in
          answered (relay_login fuel) answer client' master (is_eof answer.err))
  unfolding login_round
  relay_login-answered fuel s =
      relay_login-round fuel
      ∙ ap (login_round (relay_login fuel) (received (b, err)) client master) s
      ∙ rw (slice_to-received b err) refl
