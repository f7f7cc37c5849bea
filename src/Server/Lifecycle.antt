-- ===== src/Server/Lifecycle.antt =====
-- server/server.go, server/proxy.go, and `Shutdown`, `Statistics` and `Serve` of server/admin.go: the
-- goroutines of a running proxy, as steps between which the others run. A client's own goroutine is
-- only counted here: what it does is in Proxy.Handler.
pub mod Count
pub mod Requests
pub mod Always
pub mod Winding
pub mod Progress
pub mod Shutdown
pub mod Early
use crunchy_proxy.Go.{Outcome, ok, panic, blocked, ◌>>=◌}
use crunchy_proxy.Prelude.{
  ℕ, zero, suc, ◌≡◌, Bool, true, false, ◌&&◌, ◌||◌, List, [], ◌∷◌, ◌++◌, Option, none, some,
  get_elem?, set, if◌then◌else◌, not,
}
use crunchy_proxy.Proxy.Routing.{Proxy, Stats}
use crunchy_proxy.Server.{statistics_response}

-- Where `Start` stands: before each of its two `net.Listen`, in `waitGroup.Wait`, after its return,
-- and after a `log.Fatal`. In the last two the process is over.
pub data Main : Type 0 where
  listen_admin listen_proxy waiting returned fatal : Main

-- Where `AdminServer.Serve` stands: its goroutine not started; in `grpc.Serve`; behind it; returned.
pub data Admin : Type 0 where
  unstarted serving served done : Admin

-- Where `ProxyServer.Serve` stands: its goroutine not started; at its first statement; in `NewProxy`;
-- before the `select`; in `Accept`; returned.
pub data Serving : Type 0 where
  unstarted entered setting_up selecting accepting done : Serving

-- A `net.Listener` that may be nil
pub data Listener : Type 0 where
  nil open_ closed : Listener

-- Where a request to `Shutdown` stands: before `listener.Close`, before `close(ch)`, before
-- `grpc.Stop`, and at its end.
pub data Stopping : Type 0 where
  close_listener close_channel stop_grpc answered : Stopping

-- `Server` with its `AdminServer` and its `ProxyServer`, and where their goroutines stand. `accepted`
-- counts the clients that were given a goroutine, `requests` are those to `Shutdown`.
pub record Server : Type 0 where
  pub main : Main
  pub wait_group : ℕ
  pub admin : Admin
  pub grpc_stopped : Bool
  pub proxy : Serving
  pub listener : Listener
  pub ch_closed : Bool
  pub p : Option Proxy
  pub accepted : ℕ
  pub requests : List Stopping

-- `NewServer`, with `NewAdminServer` and `NewProxyServer`
abbrev pub new_server : Server
new_server = record {
  main = listen_admin;
  wait_group = 0;
  admin = Admin.unstarted;
  grpc_stopped = false;
  proxy = Serving.unstarted;
  listener = nil;
  ch_closed = false;
  p = none;
  accepted = 0;
  requests = [];
}

-- `waitGroup.Done()`, which panics below zero
abbrev pub wait_done : ℕ → Server → Outcome Server
wait_done zero s = panic
wait_done (suc n) s = ok (record s { wait_group = n })

-- `Start`, from one of its calls to the next; the argument tells whether `net.Listen` succeeds.
unfoldable pub start_step : Main → Bool → Server → Outcome Server
start_step listen_admin true s =
    ok (record s { main = listen_proxy; wait_group = suc s.wait_group; admin = Admin.serving })
start_step listen_proxy true s =
    ok (record s { main = waiting; wait_group = suc s.wait_group; proxy = entered })
start_step listen_admin false s = ok (record s { main = fatal })
start_step listen_proxy false s = ok (record s { main = fatal })
start_step waiting _ s = elim s.wait_group [
  | zero ↦ ok (record s { main = returned })
  | suc n ↦ blocked
]
start_step returned _ s = blocked
start_step fatal _ s = blocked

-- `AdminServer.Serve`, but for the health check that it starts. `grpc.Serve` returns once the service
-- is stopped, or when its listener fails.
unfoldable pub admin_step : Admin → Bool → Server → Outcome Server
admin_step Admin.serving failed s =
    if failed || s.grpc_stopped then ok (record s { admin = served }) else blocked
admin_step served _ s = wait_done s.wait_group (record s { admin = Admin.done })
admin_step Admin.unstarted _ s = blocked
admin_step Admin.done _ s = blocked

-- The loop of `ProxyServer.Serve`. The argument of `accept_step` tells whether `Accept` gives a
-- connection, which a closed listener does not.
unfoldable pub select_step : Server → Outcome Server
select_step s =
    if s.ch_closed
    then wait_done s.wait_group (record s { proxy = Serving.done })
    else ok (record s { proxy = accepting })

unfoldable pub accept_step : Bool → Server → Outcome Server
accept_step true s = elim s.listener [
  | open_ ↦ ok (record s { proxy = selecting; accepted = suc s.accepted })
  | nil ↦ panic
  | closed ↦ blocked
]
accept_step false s = ok (record s { proxy = selecting })

-- What `NewProxy` leaves: none is the end of the process.
abbrev pub set_up : Option Proxy → Server → Server
set_up none s = record s { main = fatal }
set_up (some p) s = record s { proxy = selecting; p = some p }

-- `ProxyServer.Serve`, on what `NewProxy` gives.
unfoldable pub proxy_step : Outcome (Option Proxy) → Serving → Bool → Server → Outcome Server
unfolding select_step accept_step
proxy_step made entered _ s = ok (record s { proxy = setting_up; listener = open_ })
proxy_step made setting_up _ s = made >>= λ r. ok (set_up r s)
proxy_step made selecting _ s = select_step s
proxy_step made accepting connected s = accept_step connected s
proxy_step made Serving.unstarted _ s = blocked
proxy_step made Serving.done _ s = blocked

-- `Shutdown`, and in it `ProxyServer.Stop`: the request's next state with the server's.
unfoldable pub stop_step : Stopping → Server → Outcome (Stopping × Server)
stop_step close_listener s = elim s.listener [
  | nil ↦ panic
  | open_ ↦ ok (close_channel, record s { listener = closed })
  | closed ↦ ok (close_channel, s)
]
stop_step close_channel s =
    if s.ch_closed then panic else ok (stop_grpc, record s { ch_closed = true })
stop_step stop_grpc s = ok (answered, record s { grpc_stopped = true })
stop_step answered s = blocked

-- Does the grpc service still take requests?
unfoldable pub takes_requests : Server → Bool
takes_requests s = elim s.admin [ Admin.unstarted ↦ false | _ ↦ not s.grpc_stopped ]

-- `ProxyServer.Stats`, and with it `AdminServer.Statistics`
unfoldable pub statistics : Server → Outcome Stats
unfolding statistics_response
statistics s = elim s.p [ none ↦ panic | some p ↦ ok (statistics_response p.stats) ]

-- What happens next; the flags are the outcomes that the environment chooses.
pub data Event : Type 0 where
  starts : (listens : Bool) → Event
  admin_serves : (failed : Bool) → Event
  proxy_serves : (connected : Bool) → Event
  shutdown_request : Event
  shutdown_goes_on : (i : ℕ) → Event
  statistics_request : Event

abbrev pub put_request : ℕ → Stopping × Server → Server
put_request i r = record r.1 { requests = set r.1.requests i r.0 }

unfoldable pub shutdown_step : ℕ → Server → Outcome Server
unfolding stop_step
shutdown_step i s = elim (get_elem? s.requests i) [
  | none ↦ blocked
  | some at ↦ (stop_step at s >>= λ r. ok (put_request i r))
]

unfoldable pub new_request : Server → Outcome Server
unfolding takes_requests
new_request s =
    if takes_requests s
    then ok (record s { requests = s.requests ++ close_listener ∷ [] })
    else blocked

unfoldable pub statistics_step : Server → Outcome Server
unfolding statistics takes_requests
statistics_step s = if takes_requests s then (statistics s >>= λ response. ok s) else blocked

-- Is the process over?
abbrev pub is_over : Main → Bool
is_over returned = true
is_over fatal = true
is_over _ = false

abbrev pub on_event : Outcome (Option Proxy) → Event → Server → Outcome Server
on_event made (starts listens) s = start_step s.main listens s
on_event made (admin_serves failed) s = admin_step s.admin failed s
on_event made (proxy_serves connected) s = proxy_step made s.proxy connected s
on_event made shutdown_request s = new_request s
on_event made (shutdown_goes_on i) s = shutdown_step i s
on_event made statistics_request s = statistics_step s

unfoldable pub step : Outcome (Option Proxy) → Event → Server → Outcome Server
step made e s = if is_over s.main then blocked else on_event made e s

-- The states that a server comes to, whatever the goroutines and the requests do.
pub data Reachable (made : Outcome (Option Proxy)) : Server → Type 0 where
  start : Reachable made new_server
  next : {s t : Server} (e : Event) → Reachable made s → step made e s ≡ ok t → Reachable made t
