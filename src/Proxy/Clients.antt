-- ===== src/Proxy/Clients.antt =====
-- proxy/proxy.go, `HandleConnection` as a whole, for clients that come at any time: the start of the
-- function, of Proxy.Admission, and behind it the message loop, of Proxy.Handler.
pub mod Safe
use crunchy_proxy.Config.{Credentials}
use crunchy_proxy.Connect.Dial.{Dialed}
use crunchy_proxy.Connect.Tls.{TlsLibrary}
use crunchy_proxy.Connect.{Conn}
use crunchy_proxy.Go.{Outcome, ok}
use crunchy_proxy.Prelude.{ℕ, ◌≡◌, List, [], ◌∷◌, ◌++◌}
use crunchy_proxy.Proxy.Admission.{admitted, turned_away, admit}
use crunchy_proxy.Proxy.Handler.{Action, System, new_handler}
use crunchy_proxy.Proxy.Ownership.Runs.{OrderlyStep}

-- A client of the proxy, and what `Connect` gives for the master when it logs in.
pub record Visit : Type 0 where
  pub client : Conn
  pub dialed : Outcome Dialed

-- The variables behind the login: those of a new handler are added to those of the others.
abbrev pub join : System → System
join s = record s { handlers = s.handlers ++ (new_handler ∷ []) }

-- An execution with the admitted clients in the order of their handlers. A client that is turned away
-- leaves no trace in the pools, and no handler.
pub data ClientsRun (tls : TlsLibrary) (creds : Credentials) (s : System)
    : List Visit → System → Type 0 where
  none_yet : ClientsRun tls creds s [] s
  joins :
      {vs : List Visit} {t : System} {c : Conn} (v : Visit)
      → ClientsRun tls creds s vs t
      → admit tls creds v.dialed v.client ≡ ok (admitted c)
      → ClientsRun tls creds s (vs ++ (v ∷ [])) (join t)
  leaves :
      {vs : List Visit} {t : System} {c : Conn} (v : Visit)
      → ClientsRun tls creds s vs t
      → admit tls creds v.dialed v.client ≡ ok (turned_away c)
      → ClientsRun tls creds s vs t
  acts :
      {vs : List Visit} {t u : System} {i : ℕ} {a : Action}
      → ClientsRun tls creds s vs t
      → OrderlyStep i a t u
      → ClientsRun tls creds s vs u
