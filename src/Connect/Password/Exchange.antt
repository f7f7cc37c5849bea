-- ===== src/Connect/Password/Exchange.antt =====
-- What the proxy sends when a backend asks for a password, and what it takes as the answer.
use crunchy_proxy.Config.{Credentials, Viper}
use crunchy_proxy.Connect.Buffers.{is_authentication_ok-fill, says_ok}
use crunchy_proxy.Connect.{Conn, send, receive, received, later_writes}
use crunchy_proxy.Connect.Password.{
  create_md5_password, send_password, handle_auth_md5, handle_auth_clear_text, authentication_type,
  handle_authentication_request,
}
use crunchy_proxy.Go.BigEndian.{uint32, be32}
use crunchy_proxy.Go.{Bytes, IsBytes, ok, codes, slice-eq-ok, IoError}
use crunchy_proxy.Prelude.{
  ℕ, ◌^◌, ◌≤◌, ◌<◌, ◌≡◌, ◌≢◌, refl, ap, ◌∙◌, List, [], ◌∷◌, ◌++◌, Option, ◌==◌, arith, length, take,
  drop, length-append, take-append, subst,
}
use crunchy_proxy.Protocol.Authentication
use crunchy_proxy.Protocol.Frame.Layout.{frame}
use crunchy_proxy.Protocol.MessageType
use crunchy_proxy.Protocol.Startup.Layout.{create_password_message-frame}

-- The connection after `message` was sent on it and one chunk read.
abbrev pub exchanged : Conn → Bytes → List (Bytes × Option IoError) → Conn
exchanged c message reads = record c {
  reads = reads;
  writes = later_writes c.writes;
  sent = c.sent ++ message ∷ [];
}

send_password-exchanged :
    (c : Conn) (password chunk : Bytes) (err : Option IoError)
    (reads : List (Bytes × Option IoError))
    → IsBytes chunk
    → send_password (record c { reads = (chunk, err) ∷ reads }) password
      ≡ ok (says_ok chunk, exchanged c (frame MessageType.password (password ++ 0 ∷ [])) reads)
unfolding send_password send receive received
send_password-exchanged c password chunk err reads b =
    rw (create_password_message-frame password, is_authentication_ok-fill chunk b)

handle_auth_md5-exchanged :
    (md5_sum : Bytes → Bytes) (creds : Credentials) (c : Conn) (request : Bytes) (chunk : Bytes)
    (err : Option IoError) (reads : List (Bytes × Option IoError))
    → 13 ≤ length request
    → IsBytes chunk
    → handle_auth_md5 md5_sum creds (record c { reads = (chunk, err) ∷ reads }) request
      ≡ ok (
        says_ok chunk,
        exchanged c
            (frame MessageType.password (
              create_md5_password md5_sum creds.username creds.password (take 4 (drop 9 request))
              ++ 0 ∷ []))
            reads,
      )
unfolding handle_auth_md5
handle_auth_md5-exchanged md5_sum creds c request chunk err reads h b =
    rw (slice-eq-ok request 9 13 (omega arith) h) (
      send_password-exchanged c
        (create_md5_password md5_sum creds.username creds.password (take 4 (drop 9 request))) chunk
        err reads b)

handle_auth_clear_text-exchanged :
    (viper : Viper) (c : Conn) (chunk : Bytes) (err : Option IoError)
    (reads : List (Bytes × Option IoError))
    → IsBytes chunk
    → handle_auth_clear_text viper (record c { reads = (chunk, err) ∷ reads })
      ≡ ok (
        says_ok chunk,
        exchanged c
            (frame MessageType.password (viper.get_string (codes "credentials.password") ++ 0 ∷ []))
            reads,
      )
unfolding handle_auth_clear_text
handle_auth_clear_text-exchanged viper c chunk err reads b =
    send_password-exchanged c (viper.get_string (codes "credentials.password")) chunk err reads b

-- An authentication request as a backend sends it.
abbrev pub request : ℕ → Bytes → Bytes
request auth_type body = frame MessageType.authentication (be32 auth_type ++ body)

authentication_type-request :
    (auth_type : ℕ) (body rest : Bytes)
    → auth_type < 2 ^ 32
    → authentication_type (request auth_type body ++ rest) ≡ ok auth_type
unfolding authentication_type uint32 be32
authentication_type-request auth_type body rest h =
    rw
      (
        slice-eq-ok (request auth_type body ++ rest) 1 5 (omega arith) (omega arith),
        slice-eq-ok (request auth_type body ++ rest) 5 9 (omega arith) (omega arith),
      )
      (ap ok (omega arith))

request-salt :
    (auth_type : ℕ) (salt rest : Bytes)
    → length salt ≡ 4
    → (13 ≤ length (request auth_type salt ++ rest))
      × (take 4 (drop 9 (request auth_type salt ++ rest)) ≡ salt)
unfolding be32
request-salt auth_type salt rest h = (
  omega (arith, h, length-append salt rest),
  subst (λ k. take k (salt ++ rest) ≡ salt) h (take-append salt rest),
)

module _ (md5_sum : Bytes → Bytes) (creds : Credentials) (viper : Viper) (c : Conn) where
  -- A request for an MD5 password with a salt of four bytes, whatever stands behind it in the
  -- buffer, is answered by the password message of the salted digest, and by nothing else; whether
  -- the zeroed buffer with the chunk of the next read in it begins with an AuthenticationOk message
  -- decides.
  pub handle_authentication_request-md5 :
      (salt rest chunk : Bytes) (err : Option IoError) (reads : List (Bytes × Option IoError))
      → length salt ≡ 4
      → IsBytes chunk
      → handle_authentication_request md5_sum creds viper
          (record c { reads = (chunk, err) ∷ reads })
          (request Authentication.md5 salt ++ rest)
        ≡ ok (
          says_ok chunk,
          exchanged c
              (frame MessageType.password
                (create_md5_password md5_sum creds.username creds.password salt ++ 0 ∷ []))
              reads,
        )
  unfolding handle_authentication_request
  handle_authentication_request-md5 salt rest chunk err reads h b =
      rw (authentication_type-request Authentication.md5 salt rest (omega arith)) (
        handle_auth_md5-exchanged md5_sum creds c (request Authentication.md5 salt ++ rest) chunk
          err reads long.0 b
        ∙ rw long.1 refl)
    where
      long :
          (13 ≤ length (request Authentication.md5 salt ++ rest))
          × (take 4 (drop 9 (request Authentication.md5 salt ++ rest)) ≡ salt)
      long = request-salt Authentication.md5 salt rest h

  -- A request for a password in clear text, whatever stands behind it in the buffer, is answered
  -- by the password message of the configured password, and by nothing else; whether the chunk
  -- that the next read brings is AuthenticationOk decides.
  pub handle_authentication_request-clear_text :
      (rest chunk : Bytes) (err : Option IoError) (reads : List (Bytes × Option IoError))
      → IsBytes chunk
      → handle_authentication_request md5_sum creds viper
          (record c { reads = (chunk, err) ∷ reads })
          (request Authentication.clear_text [] ++ rest)
        ≡ ok (
          says_ok chunk,
          exchanged c
              (frame MessageType.password
                (viper.get_string (codes "credentials.password") ++ 0 ∷ []))
              reads,
        )
  unfolding handle_authentication_request
  handle_authentication_request-clear_text rest chunk err reads b =
      rw (authentication_type-request Authentication.clear_text [] rest (omega arith))
        (handle_auth_clear_text-exchanged viper c chunk err reads b)

  -- An authentication request that asks neither for an MD5 password nor for one in clear text is
  -- answered without a word: it is accepted if it is AuthenticationOk, and refused otherwise.
  pub handle_authentication_request-silent :
      (auth_type : ℕ) (body rest : Bytes)
      → auth_type < 2 ^ 32
      → auth_type ≢ Authentication.md5
      → auth_type ≢ Authentication.clear_text
      → handle_authentication_request md5_sum creds viper c (request auth_type body ++ rest)
        ≡ ok (auth_type == Authentication.success, c)
  unfolding handle_authentication_request
  handle_authentication_request-silent auth_type body rest h n m =
      rw (authentication_type-request auth_type body rest h) (ground arith)
