-- ===== src/Connect/Password/Total.antt =====
-- `HandleAuthenticationRequest` returns on every message that fills the buffer.
use crunchy_proxy.Config.{Credentials, Viper}
use crunchy_proxy.Connect.Buffers.{AreBytes, is_authentication_ok-fill, says_ok}
use crunchy_proxy.Connect.{Conn, send, receive, received}
use crunchy_proxy.Connect.Password.{
  create_md5_password, send_password, handle_auth_md5, handle_auth_clear_text, authentication_type,
  handle_authentication_request,
}
use crunchy_proxy.Go.BigEndian.{uint32}
use crunchy_proxy.Go.{Bytes, Outcome, ok, ◌>>=◌, codes, slice-eq-ok, IoError}
use crunchy_proxy.Prelude.{
  ℕ, ◌≤◌, ◌≡◌, refl, ap, Bool, true, false, List, [], ◌∷◌, ◌++◌, Option, ◌==◌, if◌then◌else◌, arith,
  length, take, drop,
}
use crunchy_proxy.Protocol.Authentication
use crunchy_proxy.Protocol.MessageType
use crunchy_proxy.Protocol.Frame.Layout.{frame}
use crunchy_proxy.Protocol.Frame.{is_authentication_ok}
use crunchy_proxy.Protocol.Startup.Layout.{create_password_message-frame}

abbrev Returns : Outcome (Bool × Conn) → Type 0
Returns o = (r : Bool × Conn) × (o ≡ ok r)

is_authentication_ok-receive :
    (c : Conn) (reads : List (Bytes × Option IoError))
    → AreBytes reads
    → (b : Bool) × (is_authentication_ok (receive (record c { reads = reads })).0.buffer ≡ ok b)
unfolding receive received
is_authentication_ok-receive c [] h = (says_ok [], is_authentication_ok-fill [] tt)
is_authentication_ok-receive c ((chunk, err) ∷ reads) h =
    (says_ok chunk, is_authentication_ok-fill chunk h.0)

if_Returns :
    (t : Bool) (m k : Outcome (Bool × Conn)) → Returns m → Returns k → Returns (if t then m else k)
if_Returns true m k p q = p
if_Returns false m k p q = q

authentication_type_total : (m : Bytes) → 9 ≤ length m → (t : ℕ) × (authentication_type m ≡ ok t)
unfolding authentication_type uint32
authentication_type_total (a ∷ b ∷ c ∷ d ∷ e ∷ f ∷ g ∷ h ∷ i ∷ m) long =
    rw
      (
        slice-eq-ok (a ∷ b ∷ c ∷ d ∷ e ∷ f ∷ g ∷ h ∷ i ∷ m) 1 5 (omega arith) (omega arith),
        slice-eq-ok (a ∷ b ∷ c ∷ d ∷ e ∷ f ∷ g ∷ h ∷ i ∷ m) 5 9 (omega arith) long,
        authentication_type,
      )
      (_, refl)
authentication_type_total _ long = absurd (omega arith)

send_password_total :
    (c : Conn) (password : Bytes) → AreBytes c.reads → Returns (send_password c password)
unfolding send_password send
send_password_total c password h =
    rw (create_password_message-frame password, send_password)
      (let (b, e) =
          is_authentication_ok-receive (send c (frame MessageType.password (password ++ 0 ∷ []))).1
            c.reads h in
        (
          _,
          ap
              (λ o. o >>= λ b.
                ok (b, (receive (send c (frame MessageType.password (password ++ 0 ∷ []))).1).1))
              e,
        ))

-- `HandleAuthenticationRequest` returns for every message of at least thirteen bytes, whatever
-- bytes the backend sends behind it.
pub handle_authentication_request_total :
    (md5_sum : Bytes → Bytes) (creds : Credentials) (viper : Viper) (c : Conn) (m : Bytes)
    → AreBytes c.reads
    → 13 ≤ length m
    → Returns (handle_authentication_request md5_sum creds viper c m)
unfolding handle_authentication_request handle_auth_clear_text handle_auth_md5
handle_authentication_request_total md5_sum creds viper c m h long =
    let (t, e) = authentication_type_total m (omega (arith, long)) in
    rw (e, slice-eq-ok m 9 13 (omega arith) long, handle_authentication_request)
      (if_Returns (t == Authentication.clear_text) _ _
        (send_password_total c (viper.get_string (codes "credentials.password")) h)
        (if_Returns (t == Authentication.md5) _ _
          (send_password_total c
            (create_md5_password md5_sum creds.username creds.password (take 4 (drop 9 m))) h)
          (if_Returns (t == Authentication.success) _ _ (_, refl) (_, refl))))
