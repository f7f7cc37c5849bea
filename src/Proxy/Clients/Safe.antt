-- ===== src/Proxy/Clients/Safe.antt =====
-- What holds of the clients that are being served, at any moment.
use crunchy_proxy.Config.{Credentials, Node, StringMap}
use crunchy_proxy.Connect.Buffers.{AreBytes}
use crunchy_proxy.Connect.Dial.{connected}
use crunchy_proxy.Connect.Tls.{TlsLibrary}
use crunchy_proxy.Connect.{Conn}
use crunchy_proxy.Go.{Outcome, ok, ok-injective}
use crunchy_proxy.Prelude.{
  ℕ, ◌≡◌, inl, inr, refl, ap, ◌∙◌, sym, List, [], ◌∷◌, ◌++◌, some, length, length-append, arith,
  get_elem?, get_elem?_both, length-set, All, All-append, All-head, All-tail, All-get_elem?,
}
use crunchy_proxy.Proxy.Admission.Needed.{admit-IsConnected}
use crunchy_proxy.Proxy.Admission.Safe.{Ends, IsVouched, admit-Ends}
use crunchy_proxy.Proxy.Admission.{Admission, admitted, admit}
use crunchy_proxy.Proxy.Clients.{Visit, ClientsRun, none_yet, joins, leaves, acts}
use crunchy_proxy.Proxy.Handler.{Handler, Action, System, new_handler}
use crunchy_proxy.Proxy.Ownership.Runs.{
  total_weight, OrderlyStep, OrderlyStep-Inv, OrderlyStep-total_weight, step-found,
}
use crunchy_proxy.Proxy.Ownership.Safety.{IsUsing, counts_connection, once-exclusive}
use crunchy_proxy.Proxy.Ownership.Steps.{Inv}
use crunchy_proxy.Proxy.Ownership.Weights.{Weight, pools_weight, handlers_weight}
use crunchy_proxy.Proxy.Routing.{Proxy}
use crunchy_proxy.Proxy.Setup.Layout.{AllConnect}
use crunchy_proxy.Proxy.Setup.Ready.{new_proxy-once, started}
use crunchy_proxy.Proxy.Setup.{Environment, new_proxy}

handlers_weight-join :
    (w : Weight) (hs : List Handler)
    → handlers_weight w (hs ++ (new_handler ∷ [])) ≡ handlers_weight w hs
handlers_weight-join w [] = refl
handlers_weight-join w (h ∷ hs) = omega (arith, handlers_weight-join w hs)

OrderlyStep-length :
    {i : ℕ} {a : Action} {s t : System}
    → OrderlyStep i a s t
    → length t.handlers ≡ length s.handlers
OrderlyStep-length {i} {a} {s} o =
    let (r, _, q) = step-found i a s o.handler o.found o.steps in
    ap (λ (t : System). length t.handlers) q ∙ length-set s.handlers i r.0

-- What the network gives are bytes: from the client, and from the master it is logged in at.
abbrev pub IsOfBytes : Visit → Type 0
IsOfBytes v =
    AreBytes v.client.reads × ((m : Conn) → v.dialed ≡ ok (connected m) → AreBytes m.reads)

module _ (tls : TlsLibrary) (creds : Credentials) where
  ClientsRun-Inv :
      {s t : System} {vs : List Visit}
      → All Inv s.handlers
      → ClientsRun tls creds s vs t
      → All Inv t.handlers
  ClientsRun-Inv v none_yet = v
  ClientsRun-Inv v (joins {t = t} visit r e) =
      All-append Inv t.handlers (new_handler ∷ []) (ClientsRun-Inv v r) (ground arith, tt)
  ClientsRun-Inv v (leaves visit r e) = ClientsRun-Inv v r
  ClientsRun-Inv v (acts r o) = OrderlyStep-Inv (ClientsRun-Inv v r) o

  -- Clients that come bring no connection along, and take none.
  ClientsRun-total_weight :
      (w : Weight) {s t : System} {vs : List Visit}
      → All Inv s.handlers
      → ClientsRun tls creds s vs t
      → total_weight w t ≡ total_weight w s
  ClientsRun-total_weight w v none_yet = refl
  ClientsRun-total_weight w v (joins {t = t} visit r e) =
      omega (arith, handlers_weight-join w t.handlers, ClientsRun-total_weight w v r)
  ClientsRun-total_weight w v (leaves visit r e) = ClientsRun-total_weight w v r
  ClientsRun-total_weight w v (acts r o) =
      OrderlyStep-total_weight w (ClientsRun-Inv v r) o ∙ ClientsRun-total_weight w v r

  ClientsRun-length :
      {p : Proxy} {t : System} {vs : List Visit}
      → ClientsRun tls creds (started p 0) vs t
      → length t.handlers ≡ length vs
  ClientsRun-length none_yet = refl
  ClientsRun-length (joins {vs = vs} {t = t} visit r e) = omega (
    arith,
    length-append t.handlers (new_handler ∷ []),
    length-append vs (visit ∷ []),
    ClientsRun-length r,
  )
  ClientsRun-length (leaves visit r e) = ClientsRun-length r
  ClientsRun-length (acts r o) = OrderlyStep-length o ∙ ClientsRun-length r

  module _
      (keeps : (c : Conn)
        → AreBytes c.reads
        → AreBytes (tls.server c creds.ssl.ssl_server_cert creds.ssl.ssl_server_key).reads) where
    -- `ValidateClient` approves a startup message of the client, and a read of the master is taken for an
    -- AuthenticationOk message.
    pub record IsLoggedIn (v : Visit) : Type 0 where
      pub master : Conn
      pub dialed : v.dialed ≡ ok (connected master)
      pub bytes : AreBytes master.reads
      pub vouched : IsVouched tls creds master bytes keeps v.client

    -- An outcome that is there has been reached.
    ended :
        {o : Outcome Admission} {Spins Why : Type 0} {x : Admission}
        → Ends o Spins Why
        → o ≡ ok x
        → (a : Admission) × (o ≡ ok a) × ((c : Conn) → a ≡ admitted c → Why)
    ended (inl (blocks, _)) e = absurd (ground arith)
    ended (inr r) e = r

    admitted-IsLoggedIn :
        (v : Visit) {c : Conn}
        → IsOfBytes v
        → admit tls creds v.dialed v.client ≡ ok (admitted c)
        → IsLoggedIn v
    admitted-IsLoggedIn v b e =
        let (master, q) = admit-IsConnected tls creds v.dialed v.client e in
        let back = ap (λ d. admit tls creds d v.client) q in
        let (a, f, w) =
          ended (admit-Ends tls creds master (b.1 master q) keeps v.client b.0) (sym back ∙ e) in
        record {
          master = master;
          dialed = q;
          bytes = b.1 master q;
          vouched = w _ (ok-injective (sym f ∙ sym back ∙ e));
        }

    ClientsRun-IsLoggedIn :
        {s t : System} {vs : List Visit}
        → All IsOfBytes vs
        → ClientsRun tls creds s vs t
        → All IsLoggedIn vs
    ClientsRun-IsLoggedIn b none_yet = tt
    ClientsRun-IsLoggedIn b (joins {vs = vs} v r e) =
        All-append IsLoggedIn vs (v ∷ [])
          (ClientsRun-IsLoggedIn (All-head IsOfBytes vs (v ∷ []) b) r)
          (admitted-IsLoggedIn v (All-tail IsOfBytes vs (v ∷ []) b).0 e, tt)
    ClientsRun-IsLoggedIn b (leaves v r e) = ClientsRun-IsLoggedIn b r
    ClientsRun-IsLoggedIn b (acts r o) = ClientsRun-IsLoggedIn b r

-- On a proxy that was set up with every `Connect` giving a connection, where clients come at any time
-- and go through the whole of `HandleConnection`, interleaved in any way, in orderly sessions, and with
-- bytes from the network and a TLS library that gives a connection of bytes for one of bytes: a handler
-- that uses a connection is that of a client which sent a startup message that `ValidateClient`
-- approves, and for which a read of the master began with the type and the length of an
-- AuthenticationOk message, and with zeros where the code stands, as far as the read went; no other
-- handler uses the connection, and it is in no pool.
pub clients_served :
    (tls : TlsLibrary) (env : Environment)
    (keeps : (c : Conn)
      → AreBytes c.reads
      → AreBytes (tls.server c env.creds.ssl.ssl_server_cert env.creds.ssl.ssl_server_key).reads)
    (capacity : ℕ) (nodes : StringMap Node) {opened : ℕ} {p : Proxy} {vs : List Visit} {t : System}
    (i c : ℕ)
    → AllConnect env
    → new_proxy env capacity nodes ≡ ok (some (opened, p))
    → All IsOfBytes vs
    → ClientsRun tls env.creds (started p 0) vs t
    → IsUsing t i c
    → ((v : Visit) × (get_elem? vs i ≡ some v) × IsLoggedIn tls env.creds keeps v)
      × ((j : ℕ) → IsUsing t j c → j ≡ i)
      × (pools_weight (counts_connection c) t.proxy.pools ≡ 0)
clients_served tls env keeps capacity nodes {vs = vs} {t} i c all e b r u =
    let (v, found) = get_elem?_both vs t.handlers i (ClientsRun-length tls env.creds r) u.found in
    let (alone, pooled) =
      once-exclusive i c (ClientsRun-Inv tls env.creds tt r)
        (omega (
          arith,
          ClientsRun-total_weight tls env.creds (counts_connection c) tt r,
          new_proxy-once env capacity nodes c all e,
        ))
        u in
    let served = ClientsRun-IsLoggedIn tls env.creds keeps b r in
    ((v, found, All-get_elem? (IsLoggedIn tls env.creds keeps) vs i served found), alone, pooled)
