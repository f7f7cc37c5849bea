-- ===== src/Proxy/Admission/Safe.antt =====
-- Which clients get to send queries.
use crunchy_proxy.Config.{Credentials}
use crunchy_proxy.Connect.Buffers.{AreBytes, get_version-fill, length-received}
use crunchy_proxy.Connect.Dial.{connected}
use crunchy_proxy.Connect.Login.Sound.{IsSound, authenticate_client-EndsSound}
use crunchy_proxy.Connect.Login.Accepted.{HasAccepted}
use crunchy_proxy.Connect.Login.{Login, LoginError, network, reported}
use crunchy_proxy.Connect.Tls.{TlsLibrary, upgrade_server_connection}
use crunchy_proxy.Connect.Validate.Total.{validate_client_total}
use crunchy_proxy.Connect.Validate.{is_eof, validate_client}
use crunchy_proxy.Connect.{Conn, Received, send, receive, received, buffer_size}
use crunchy_proxy.Go.{Bytes, Outcome, ok, blocked, ◌>>=◌, IoError, eof, failed}
use crunchy_proxy.Prelude.{
  ℕ, ◌≤◌, ◌≡◌, ◌≢◌, refl, ap, ◌∙◌, ◌⊎◌, inl, inr, Bool, true, false, Option, none, some, List, [],
  ◌∷◌, ◌==◌, length, arith, if◌then◌else◌,
}
use crunchy_proxy.Protocol.Error.{get_message}
use crunchy_proxy.Protocol.Frame.{get_version, ssl_request_code, ssl_allowed, ssl_not_allowed}
use crunchy_proxy.Protocol.Message.{fill, write_byte, get_bytes}
use crunchy_proxy.Proxy.Admission.{
  Admission, admitted, turned_away, ssl_response, after_login, validated, validate_and_login,
  reread, on_startup, admit,
}

-- An end that is reached, and that admits only on `Why`; or none, which needs `Spins`.
abbrev pub Ends : Outcome Admission → Type 0 → Type 0 → Type 0
Ends o Spins Why =
    ((o ≡ blocked) × Spins) ⊎ ((a : Admission) × (o ≡ ok a) × ((c : Conn) → a ≡ admitted c → Why))

-- Along an equation, and for a reason that follows.
Ends-map :
    {o p : Outcome Admission} {Spins Spins' Why Why' : Type 0}
    → o ≡ p
    → (Spins → Spins')
    → (Why → Why')
    → Ends p Spins Why
    → Ends o Spins' Why'
Ends-map e f g (inl (b, s)) = inl (e ∙ b, f s)
Ends-map e f g (inr (a, b, w)) = inr (a, e ∙ b, (λ c q. g (w c q)))

after_login-refused :
    (a : Bool) (err : Option LoginError) (client : Conn) (master : Option Conn)
    → a ≡ false
    → err ≢ none
    → after_login (some (record { authenticated = a; err = err; client = client; master = master }))
      ≡ ok (turned_away client)
unfolding after_login
after_login-refused a none client master e n = absurd (n refl)
after_login-refused a (some (network eof)) client master e n = refl
after_login-refused a (some (network failed)) client master e n = rw e refl
after_login-refused a (some (reported err)) client master e n = rw e refl

after_login-accepted :
    (a : Bool) (err : Option LoginError) (client : Conn) (master : Option Conn)
    → a ≡ true
    → err ≡ none
    → after_login (some (record { authenticated = a; err = err; client = client; master = master }))
      ≡ ok (admitted client)
unfolding after_login
after_login-accepted a err client master e n = rw (n, e) refl

after_login-Ends :
    (Spins : Type 0) (login : Login) (reads : List (Bytes × Option IoError))
    → IsSound login reads
    → Ends (after_login (some login)) Spins (HasAccepted reads)
after_login-Ends Spins login reads (inl (a, n, w)) = inr (
  admitted login.client,
  after_login-accepted login.authenticated login.err login.client login.master a n,
  (λ c e. w),
)
after_login-Ends Spins login reads (inr (a, n)) = inr (
  turned_away login.client,
  after_login-refused login.authenticated login.err login.client login.master a n,
  (λ c e. cc),
)

receive-fits :
    (client : Conn) (reads : List (Bytes × Option IoError))
    → AreBytes reads
    → (let r = receive (record client { reads = reads }) in
        AreBytes r.1.reads × (r.0.length ≤ length r.0.buffer) × (r.1.behind ≡ client.behind))
unfolding receive
receive-fits client [] hc = (tt, length-received [] (some client.behind), refl)
receive-fits client ((chunk, err) ∷ reads) hc = (hc.1, length-received chunk err, refl)

version_of :
    (client : Conn) (reads : List (Bytes × Option IoError))
    → (v : ℕ) × (get_version (receive (record client { reads = reads })).0.buffer ≡ ok v)
unfolding receive received
version_of client [] = get_version-fill buffer_size [] (omega arith)
version_of client ((chunk, err) ∷ reads) = get_version-fill buffer_size chunk (omega arith)

module _ (tls : TlsLibrary) (creds : Credentials) (master : Conn) (hm : AreBytes master.reads)
    (keeps : (c : Conn)
      → AreBytes c.reads
      → AreBytes (tls.server c creds.ssl.ssl_server_cert creds.ssl.ssl_server_key).reads) where
  -- What admits a client: `ValidateClient` approves its startup message, and a read of the master is
  -- taken for an AuthenticationOk message.
  abbrev Vouched : Bytes → Type 0
  Vouched m = (validate_client creds m ≡ ok true) × HasAccepted master.reads

  validated-Ends :
      (client : Conn) (r : Received) (valid : Bool)
      → AreBytes client.reads
      → r.length ≤ length r.buffer
      → validate_client creds r.buffer ≡ ok valid
      → Ends
          (validated (ok (connected master)) client r valid)
          (client.behind ≢ eof)
          (Vouched r.buffer)
  unfolding validated get_message crunchy_proxy.Protocol.Error.write_nonempty
      crunchy_proxy.Protocol.Message.reset_length crunchy_proxy.Go.slice_from
      crunchy_proxy.Go.BigEndian.be32 crunchy_proxy.Go.BigEndian.put_uint32
  validated-Ends client r false hc fits v = inr (turned_away (send client _).1, refl, (λ c e. cc))
  validated-Ends client r true hc fits v =
      elim (authenticate_client-EndsSound client master r.buffer r.length fits hc hm) [
        | inl (e, n) ↦ inl (ap (λ o. o >>= after_login) e, n)
        | inr (login, e, s) ↦
            Ends-map (ap (λ o. o >>= after_login) e) (λ n. n) (λ w. (v, w))
              (after_login-Ends (client.behind ≢ eof) login master.reads s)
      ]

  validate_and_login-Ends :
      (client : Conn) (r : Received)
      → AreBytes client.reads
      → r.length ≤ length r.buffer
      → Ends
          (validate_and_login creds (ok (connected master)) client r)
          (client.behind ≢ eof)
          (Vouched r.buffer)
  unfolding validate_and_login
  validate_and_login-Ends client r hc fits =
      let (valid, v) = validate_client_total creds r.buffer in
      Ends-map (ap (λ o. o >>= validated (ok (connected master)) client r) v) (λ n. n) (λ w. w)
        (validated-Ends client r valid hc fits v)

  reread-Ends :
      (client : Conn) (r : Received) (hung_up : Bool)
      → AreBytes client.reads
      → r.length ≤ length r.buffer
      → Ends
          (reread creds (ok (connected master)) client r hung_up)
          (client.behind ≢ eof)
          (Vouched r.buffer)
  reread-Ends client r true hc fits = inr (turned_away client, refl, (λ c e. cc))
  reread-Ends client r false hc fits = validate_and_login-Ends client r hc fits

  -- The connection behind the answer to an SSL request.
  abbrev secure_client : Conn → Conn
  secure_client client =
      upgrade_server_connection tls creds.ssl
        (send client ((if creds.ssl.enable then ssl_allowed else ssl_not_allowed) ∷ [])).1

  chosen-AreBytes :
      (enable : Bool) (c : Conn)
      → AreBytes c.reads
      → AreBytes
          (if enable
            then tls.server c creds.ssl.ssl_server_cert creds.ssl.ssl_server_key
            else c).reads
  chosen-AreBytes true c hc = keeps c hc
  chosen-AreBytes false c hc = hc

  secure_client-AreBytes :
      (client : Conn) → AreBytes client.reads → AreBytes (secure_client client).reads
  unfolding upgrade_server_connection send
  secure_client-AreBytes client hc = chosen-AreBytes creds.ssl.enable (send client _).1 hc

  -- The buffers that may hold the startup message: the first, or the one behind the SSL answer.
  abbrev pub IsStartup : Conn → Bytes → Type 0
  IsStartup client m =
      (m ≡ (receive client).0.buffer) ⊎ (m ≡ (receive (secure_client (receive client).1)).0.buffer)

  -- The reads of one of the connections that the client is read from end in another error than
  -- `io.EOF`.
  abbrev pub KeepsFailing : Conn → Type 0
  KeepsFailing client = (client.behind ≢ eof) ⊎ ((secure_client (receive client).1).behind ≢ eof)

  abbrev pub IsVouched : Conn → Type 0
  IsVouched client = (m : Bytes) × IsStartup client m × Vouched m

  on_startup-Ends :
      (client : Conn) (asks : Bool)
      → AreBytes client.reads
      → Ends
          (on_startup tls creds (ok (connected master)) (receive client).1 (receive client).0 asks)
          (KeepsFailing client)
          (IsVouched client)
  unfolding on_startup ssl_response write_byte get_bytes
  on_startup-Ends client false hc =
      let (bytes, fits, same) = receive-fits client client.reads hc in
      Ends-map refl (λ n. inl (λ e. n (same ∙ e))) (λ w. ((receive client).0.buffer, inl refl, w))
        (validate_and_login-Ends (receive client).1 (receive client).0 bytes fits)
  on_startup-Ends client true hc =
      let (bytes, fits, _) = receive-fits client client.reads hc in
      let next = secure_client (receive client).1 in
      let (bytes', fits', same) =
        receive-fits next next.reads (secure_client-AreBytes (receive client).1 bytes) in
      Ends-map refl (λ n. inr (λ e. n (same ∙ e))) (λ w. ((receive next).0.buffer, inr refl, w))
        (reread-Ends (receive next).1 (receive next).0 (is_eof (receive next).0.err) bytes' fits')

  -- With a connection to the master, and a TLS library that gives a connection of bytes for one of
  -- bytes, and whatever bytes the client and the master send, where every read returns: the start of
  -- `HandleConnection` goes on
  -- for ever only if the reads of the client, before or behind the SSL answer, end in another error than
  -- `io.EOF`. It admits the client only if `ValidateClient` approves a startup message that was
  -- received, and a read of the master began with the type and the length of an AuthenticationOk
  -- message, and with zeros where the code of the message stands, as far as the read went.
  pub admit-Ends :
      (client : Conn)
      → AreBytes client.reads
      → Ends
          (admit tls creds (ok (connected master)) client)
          (KeepsFailing client)
          (IsVouched client)
  unfolding admit
  admit-Ends client hc =
      let (v, e) = version_of client client.reads in
      Ends-map
        (ap
          (λ o. o >>= λ v.
            on_startup tls creds (ok (connected master)) (receive client).1 (receive client).0
              (v == ssl_request_code))
          e)
        (λ n. n) (λ w. w) (on_startup-Ends client (v == ssl_request_code) hc)
