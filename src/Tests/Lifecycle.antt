-- ===== src/Tests/Lifecycle.antt =====
-- Concrete executions of a server.
use crunchy_proxy.Go.Channels.{make}
use crunchy_proxy.Go.{Outcome, ok, panic, >>=-eq-ok, ok-injective}
use crunchy_proxy.Prelude.{
  ◌≤◌, ◌≡◌, ◌≢◌, ◌⊎◌, refl, subst, true, false, Option, some, List, [], ◌∷◌, length, if◌then◌else◌,
}
use crunchy_proxy.Proxy.Routing.{Proxy}
use crunchy_proxy.Server.Lifecycle.Count.{is_set_up}
use crunchy_proxy.Server.Lifecycle.Early.{early_statistics, second_shutdown}
use crunchy_proxy.Server.Lifecycle.Requests.{how_many, has_closed}
use crunchy_proxy.Server.Lifecycle.Shutdown.{steps, returned_stopped, shutdown_returns}
use crunchy_proxy.Server.Lifecycle.{
  returned, waiting, listen_proxy, Admin, Serving, selecting, closed, stop_grpc, close_channel,
  close_listener, answered, Server, Event, starts, admin_serves, proxy_serves, shutdown_request,
  shutdown_goes_on, statistics_request, new_server, step, start_step, admin_step, proxy_step,
  new_request, shutdown_step, takes_requests, Reachable, start, next,
}

abbrev empty_proxy : Proxy
empty_proxy = record { pools = []; write_pools = make 0; read_pools = make 0; stats = [] }

abbrev made : Outcome (Option Proxy)
made = ok (some empty_proxy)

steps-Reachable :
    (es : List Event) (s : Server) {t : Server}
    → Reachable made s
    → steps made es s ≡ ok t
    → Reachable made t
unfolding steps
steps-Reachable [] s r h = subst (Reachable made) (ok-injective h) r
steps-Reachable (e ∷ es) s r h =
    let (u, first, rest) = >>=-eq-ok (step made e s) (steps made es) h in
    steps-Reachable es u (next e r first) rest

-- The admin service is up and has taken a request to shut down; the proxy is not started.
abbrev early : Server
early = record new_server {
  main = listen_proxy;
  wait_group = 1;
  admin = Admin.serving;
  requests = close_listener ∷ [];
}

early-Reachable : Reachable made early
unfolding steps step start_step admin_step proxy_step new_request shutdown_step
early-Reachable = steps-Reachable (starts true ∷ shutdown_request ∷ []) new_server start refl

-- The proxy is up; one request has shut the proxy down.
abbrev down : Server
down = record {
  main = waiting;
  wait_group = 2;
  admin = Admin.serving;
  grpc_stopped = true;
  proxy = selecting;
  listener = closed;
  ch_closed = true;
  p = some empty_proxy;
  accepted = 0;
  requests = answered ∷ [];
}

abbrev to_down : List Event
to_down =
    starts true
    ∷ starts true
    ∷ proxy_serves true
    ∷ proxy_serves true
    ∷ shutdown_request
    ∷ shutdown_goes_on 0
    ∷ shutdown_goes_on 0
    ∷ shutdown_goes_on 0
    ∷ []

down-Reachable : Reachable made down
unfolding steps step start_step admin_step proxy_step new_request shutdown_step
down-Reachable = steps-Reachable to_down new_server start refl

-- Two requests, of which one has closed the channel.
abbrev twice : Server
twice = record down { grpc_stopped = false; requests = stop_grpc ∷ close_channel ∷ [] }

twice-Reachable : Reachable made twice
unfolding steps step start_step admin_step proxy_step new_request shutdown_step
twice-Reachable =
    steps-Reachable
      (starts true
        ∷ starts true
        ∷ proxy_serves true
        ∷ proxy_serves true
        ∷ shutdown_request
        ∷ shutdown_request
        ∷ shutdown_goes_on 0
        ∷ shutdown_goes_on 1
        ∷ shutdown_goes_on 0
        ∷ [])
      new_server start refl

abbrev the_end : Server
the_end = record down { main = returned; wait_group = 0; admin = Admin.done; proxy = Serving.done }

abbrev to_the_end : List Event
to_the_end = admin_serves false ∷ proxy_serves true ∷ admin_serves false ∷ starts true ∷ []

down-the_end : steps made to_the_end down ≡ ok the_end
unfolding steps step start_step admin_step proxy_step new_request shutdown_step
down-the_end = refl

returned_stopped_example :
    (the_end.admin ≡ Admin.done)
    × (the_end.proxy ≡ Serving.done)
    × (the_end.wait_group ≡ 0)
    × (the_end.listener ≡ closed)
    × (how_many has_closed the_end.requests ≡ 1)
returned_stopped_example =
    returned_stopped the_end (steps-Reachable to_the_end down down-Reachable down-the_end) refl

shutdown_returns_example :
    (length to_the_end ≤ 5)
    × ((e : Event) → step made e the_end ≢ panic)
    × ((the_end.main ≡ returned) ⊎ ((e : Event) × (u : Server) × (step made e the_end ≡ ok u)))
shutdown_returns_example =
    shutdown_returns empty_proxy down to_the_end down-Reachable refl (λ e. cc) down-the_end

early_statistics_example :
    step made statistics_request early ≡ (if is_set_up early.proxy then ok early else panic)
unfolding takes_requests
early_statistics_example = early_statistics early early-Reachable refl refl

second_shutdown_example : step made (shutdown_goes_on 1) twice ≡ panic
second_shutdown_example = second_shutdown twice 1 0 stop_grpc twice-Reachable refl refl refl refl
