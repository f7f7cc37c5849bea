-- ===== src/Server/Lifecycle/Early.antt =====
-- Requests that the admin service takes before the proxy is there, and a second request to shut down.
use crunchy_proxy.Go.{Outcome, ok, panic, ◌>>=◌}
use crunchy_proxy.Prelude.{
  ℕ, zero, suc, ◌≤◌, ◌≡◌, refl, Bool, true, false, Option, some, arith, List, [], ◌∷◌, get_elem?,
  if◌then◌else◌,
}
use crunchy_proxy.Proxy.Routing.{Proxy}
use crunchy_proxy.Server.Lifecycle.{
  Stopping, close_listener, close_channel, nil, Server, stop_step, shutdown_step, statistics,
  statistics_step, takes_requests, put_request, statistics_request, shutdown_goes_on, step, is_over,
  Reachable,
}
use crunchy_proxy.Server.Lifecycle.Count.{Inv, has_listener, is_set_up}
use crunchy_proxy.Server.Lifecycle.Always.{Reachable-Safe, step-alive}
use crunchy_proxy.Server.Lifecycle.Requests.{has_closed, how_many, bit}

statistics_exact :
    (s : Server)
    → Inv s
    → statistics s >>= (λ r. ok s) ≡ (if is_set_up s.proxy then ok s else panic)
unfolding statistics
statistics_exact s v = ground arith

shutdown_step-found :
    (i : ℕ) (r : Stopping) (s : Server)
    → get_elem? s.requests i ≡ some r
    → shutdown_step i s ≡ (stop_step r s >>= λ q. ok (put_request i q))
unfolding shutdown_step
shutdown_step-found i r s f = rw (f, shutdown_step) refl

stop_step-nil : (s : Server) → s.listener ≡ nil → stop_step close_listener s ≡ panic
unfolding stop_step
stop_step-nil s l = ground arith

stop_step-twice : (s : Server) → s.ch_closed ≡ true → stop_step close_channel s ≡ panic
unfolding stop_step
stop_step-twice s c = ground arith

-- The admin service takes requests before the proxy is set up: a request for the statistics ends the
-- process in a panic as long as `NewProxy` has not returned, and is answered after that.
pub early_statistics :
    {made : Outcome (Option Proxy)} (s : Server)
    → Reachable made s
    → is_over s.main ≡ false
    → takes_requests s ≡ true
    → step made statistics_request s ≡ (if is_set_up s.proxy then ok s else panic)
unfolding statistics_step
early_statistics {made} s r o y =
    rw (step-alive made statistics_request s o, y, statistics_step)
      (statistics_exact s (Reachable-Safe r).inv)

-- A request to shut down that comes to close the listener ends the process in a panic as long as
-- `ProxyServer.Serve` has not stored its listener.
pub early_shutdown :
    {made : Outcome (Option Proxy)} (s : Server) (i : ℕ)
    → Reachable made s
    → is_over s.main ≡ false
    → get_elem? s.requests i ≡ some close_listener
    → has_listener s.proxy ≡ false
    → step made (shutdown_goes_on i) s ≡ panic
early_shutdown {made} s i r o f l =
    rw
      (
        step-alive made (shutdown_goes_on i) s o,
        shutdown_step-found i close_listener s f,
        stop_step-nil s (no_listener s (Reachable-Safe r).inv l),
      )
      refl
  where
    no_listener : (s : Server) → Inv s → has_listener s.proxy ≡ false → s.listener ≡ nil
    no_listener s v l = ground arith

how_many-member :
    (w : Stopping → ℕ) (rs : List Stopping) (j : ℕ) (r : Stopping)
    → get_elem? rs j ≡ some r
    → w r ≤ how_many w rs
how_many-member w [] j r f = cc
how_many-member w (r' ∷ rs) zero r f = ground arith
how_many-member w (r' ∷ rs) (suc j) r f = omega (arith, how_many-member w rs j r f)

bit-true : (b : Bool) → 1 ≤ bit b → b ≡ true
bit-true true h = refl
bit-true false h = absurd (omega arith)

-- Once one request to `Shutdown` has closed the channel, every other that comes to close it ends the
-- process in a panic.
pub second_shutdown :
    {made : Outcome (Option Proxy)} (s : Server) (i j : ℕ) (r : Stopping)
    → Reachable made s
    → is_over s.main ≡ false
    → get_elem? s.requests j ≡ some r
    → has_closed r ≡ 1
    → get_elem? s.requests i ≡ some close_channel
    → step made (shutdown_goes_on i) s ≡ panic
second_shutdown {made} s i j r reached o f h g =
    let v = Reachable-Safe reached in
    let closed =
      bit-true s.ch_closed
        (omega (arith, v.closers, how_many-member has_closed s.requests j r f)) in
    rw
      (
        step-alive made (shutdown_goes_on i) s o,
        shutdown_step-found i close_channel s g,
        stop_step-twice s closed,
      )
      refl
