-- ===== src/Server/Lifecycle/Shutdown.antt =====
-- The end of a server: what holds when `Start` returns, and that it does after a request to shut down.
use crunchy_proxy.Go.{Outcome, ok, panic, blocked, ◌>>=◌, >>=-eq-ok, ok-injective}
use crunchy_proxy.Prelude.{
  ◌+◌, ◌≤◌, ◌<◌, ◌≡◌, ◌≢◌, ◌⊎◌, inl, inr, refl, subst, sym, ◌∙◌, true, Option, some, arith, List,
  [], ◌∷◌, length, Bool-cases,
}
use crunchy_proxy.Proxy.Routing.{Proxy}
use crunchy_proxy.Server.Lifecycle.{
  Main, listen_admin, listen_proxy, waiting, returned, fatal, Admin, Serving, closed, answered,
  Server, Event, step, is_over, Reachable,
}
use crunchy_proxy.Server.Lifecycle.Count.{Inv}
use crunchy_proxy.Server.Lifecycle.Winding.{left, WindsDown, proxy_made, on_event-Nearer}
use crunchy_proxy.Server.Lifecycle.Progress.{on_event-runs, returns_or_goes}
use crunchy_proxy.Server.Lifecycle.Always.{Reachable-Safe, step-event, step-Safe, step-alive}
use crunchy_proxy.Server.Lifecycle.Requests.{has_closed, how_many, bit}

-- `Start` returns only when both `Serve`s have returned: the wait group is empty, the listener of the
-- proxy is closed, and exactly one request to shut down has closed the channel.
pub returned_stopped :
    {made : Outcome (Option Proxy)} (s : Server)
    → Reachable made s
    → s.main ≡ returned
    → (s.admin ≡ Admin.done)
      × (s.proxy ≡ Serving.done)
      × (s.wait_group ≡ 0)
      × (s.listener ≡ closed)
      × (how_many has_closed s.requests ≡ 1)
returned_stopped s r m = let v = Reachable-Safe r in of_inv s v.inv v.closers m
  where
    of_inv :
        (s : Server)
        → Inv s
        → how_many has_closed s.requests ≡ bit s.ch_closed
        → s.main ≡ returned
        → (s.admin ≡ Admin.done)
          × (s.proxy ≡ Serving.done)
          × (s.wait_group ≡ 0)
          × (s.listener ≡ closed)
          × (how_many has_closed s.requests ≡ 1)
    of_inv s v c m = ground arith

-- A run of events, in order.
unfoldable pub steps : Outcome (Option Proxy) → List Event → Server → Outcome Server
unfolding step
steps made [] s = ok s
steps made (e ∷ es) s = step made e s >>= steps made es

module _ (p : Proxy) where
  step-WindsDown :
      (e : Event) (s : Server) {t : Server}
      → WindsDown s
      → step (proxy_made p) e s ≡ ok t
      → WindsDown t × (left t < left s)
  step-WindsDown e s {t} w h =
      let (o, h') = step-event (proxy_made p) e s h in
      let n = on_event-Nearer p e s w h' in
      (
        record {
          safe = step-Safe (proxy_made p) e s w.safe h;
          one = n.same_requests ∙ w.one;
          alive = n.alive;
        },
        n.fewer,
      )

  steps-WindsDown :
      (es : List Event) (s : Server) {t : Server}
      → WindsDown s
      → steps (proxy_made p) es s ≡ ok t
      → WindsDown t × (left t + length es ≤ left s)
  unfolding steps
  steps-WindsDown [] s w h = (subst WindsDown (ok-injective h) w, ground arith)
  steps-WindsDown (e ∷ es) s w h =
      let (u, first, rest) = >>=-eq-ok (step (proxy_made p) e s) (steps (proxy_made p) es) h in
      let (w', near) = step-WindsDown e s w first in
      let (w'', nearer) = steps-WindsDown es u w' rest in (w'', omega arith)

  returned_over : (m : Main) → is_over m ≡ true → m ≢ fatal → m ≡ returned
  returned_over returned h n = refl
  returned_over fatal h n = absurd (n refl)
  returned_over listen_admin h n = cc
  returned_over listen_proxy h n = cc
  returned_over waiting h n = cc

  goes_on :
      (s : Server)
      → WindsDown s
      → (s.main ≡ returned) ⊎ ((e : Event) × (u : Server) × (step (proxy_made p) e s ≡ ok u))
  goes_on s w = elim (Bool-cases (is_over s.main)) [
    | inl over ↦ inl (returned_over s.main over w.alive)
    | inr alive ↦ elim (returns_or_goes p s w) [
      | inl m ↦ inl m
      | inr (e, u, h) ↦ inr (e, u, step-alive (proxy_made p) e s alive ∙ h)
    ]
  ]

  no_panic : (e : Event) (s : Server) → WindsDown s → step (proxy_made p) e s ≢ panic
  unfolding step
  no_panic e s w h = elim (Bool-cases (is_over s.main)) [
    | inl over ↦ over_blocks (rw (over, step) at h)
    | inr alive ↦ on_event-runs p e s w (sym (step-alive (proxy_made p) e s alive) ∙ h)
  ]
    where
      over_blocks : ◌≡◌ {A = Outcome Server} blocked panic → ⊥
      over_blocks q = cc

left-le : (s : Server) → left s ≤ 5
left-le s = ground arith

-- A server that could set up its proxy and has answered its one request to shut down comes to its
-- end, however the goroutines run: at most five more steps are taken, none panics, and as long as
-- `Start` has not returned one is possible.
pub shutdown_returns :
    (p : Proxy) (s : Server) (es : List Event) {t : Server}
    → Reachable (ok (some p)) s
    → s.requests ≡ answered ∷ []
    → s.main ≢ fatal
    → steps (ok (some p)) es s ≡ ok t
    → (length es ≤ 5)
      × ((e : Event) → step (ok (some p)) e t ≢ panic)
      × ((t.main ≡ returned) ⊎ ((e : Event) × (u : Server) × (step (ok (some p)) e t ≡ ok u)))
shutdown_returns p s es {t} r one alive h =
    let (w, near) =
      steps-WindsDown p es s (record { safe = Reachable-Safe r; one = one; alive = alive }) h in
    (omega (arith, left-le s), λ e. no_panic p e t w, goes_on p t w)
