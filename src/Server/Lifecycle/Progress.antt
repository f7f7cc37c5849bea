-- ===== src/Server/Lifecycle/Progress.antt =====
-- A server that winds down does not panic, and goes on until `Start` has returned.
use crunchy_proxy.Go.{Outcome, ok, panic, blocked}
use crunchy_proxy.Prelude.{◌≡◌, ◌≢◌, ◌⊎◌, inl, inr, refl, sym, ◌∙◌, Bool, true, false, some, arith}
use crunchy_proxy.Proxy.Routing.{Proxy}
use crunchy_proxy.Server.Lifecycle.{
  Main, waiting, returned, Admin, serving, served, Serving, entered, setting_up, selecting,
  accepting, Server, start_step, admin_step, proxy_step, Event, starts, admin_serves, proxy_serves,
  shutdown_request, shutdown_goes_on, statistics_request, on_event,
}
use crunchy_proxy.Server.Lifecycle.Count.{Inv, admin_runs, proxy_runs}
use crunchy_proxy.Server.Lifecycle.Winding.{
  Flags, WindsDown, WindsDown-Flags, proxy_made, request_blocked, statistics_blocked,
  shutdown_blocked,
}

fails : ◌≡◌ {A = Outcome Server} blocked panic → ⊥
fails e = cc

Admin-discrete : Discrete Admin
Admin-discrete = hlevel

Serving-discrete : Discrete Serving
Serving-discrete = hlevel

module _ (p : Proxy) where
  start_step-runs : (m : Main) (b : Bool) (s : Server) → start_step m b s ≢ panic
  unfolding start_step
  start_step-runs m b s e = ground arith

  admin_step-runs :
      (a : Admin) (b : Bool) (s : Server) → s.admin ≡ a → Inv s → admin_step a b s ≢ panic
  unfolding admin_step
  admin_step-runs a b s q i e = ground arith

  proxy_step-runs :
      (a : Serving) (b : Bool) (s : Server)
      → s.proxy ≡ a
      → Inv s
      → proxy_step (proxy_made p) a b s ≢ panic
  unfolding proxy_step
  proxy_step-runs a b s q i e = ground arith

  pub on_event-runs : (e : Event) (s : Server) → WindsDown s → on_event (proxy_made p) e s ≢ panic
  on_event-runs (starts b) s w h = start_step-runs s.main b s h
  on_event-runs (admin_serves b) s w h = admin_step-runs s.admin b s refl w.safe.inv h
  on_event-runs (proxy_serves b) s w h = proxy_step-runs s.proxy b s refl w.safe.inv h
  on_event-runs shutdown_request s w h = fails (sym (request_blocked p s (WindsDown-Flags s w)) ∙ h)
  on_event-runs (shutdown_goes_on i) s w h = fails (sym (shutdown_blocked p i s w.one) ∙ h)
  on_event-runs statistics_request s w h =
      fails (sym (statistics_blocked p s (WindsDown-Flags s w)) ∙ h)

  -- A goroutine that has not ended can go on.
  abbrev pub CanStep : Server → Type 0
  CanStep s = (e : Event) × (t : Server) × (on_event (proxy_made p) e s ≡ ok t)

  admin_goes : (a : Admin) (s : Server) → s.admin ≡ a → Flags s → Inv s → a ≢ Admin.done → CanStep s
  unfolding admin_step
  admin_goes Admin.unstarted s q f i n = absurd (ground (arith, f.main))
  admin_goes serving s q f i n = (admin_serves true, record s { admin = served }, rw q refl)
  admin_goes served s q f i n = (
    admin_serves true,
    record s { admin = Admin.done; wait_group = proxy_runs s.proxy },
    ground arith,
  )
  admin_goes Admin.done s q f i n = absurd (n refl)

  proxy_goes :
      (a : Serving) (s : Server) → s.proxy ≡ a → Flags s → Inv s → a ≢ Serving.done → CanStep s
  unfolding proxy_step
  proxy_goes Serving.unstarted s q f i n = absurd (ground arith)
  proxy_goes entered s q f i n = absurd (ground arith)
  proxy_goes setting_up s q f i n =
      (proxy_serves false, record s { proxy = selecting; p = some p }, rw q refl)
  proxy_goes selecting s q f i n = (
    proxy_serves false,
    record s { proxy = Serving.done; wait_group = admin_runs s.admin },
    ground arith,
  )
  proxy_goes accepting s q f i n = (proxy_serves false, record s { proxy = selecting }, rw q refl)
  proxy_goes Serving.done s q f i n = absurd (n refl)

  start_goes :
      (s : Server)
      → s.main ≡ waiting
      → s.admin ≡ Admin.done
      → s.proxy ≡ Serving.done
      → Inv s
      → CanStep s
  unfolding start_step
  start_goes s m a q i = (starts true, record s { main = returned }, ground arith)

  goes : (s : Server) → WindsDown s → s.main ≡ waiting → CanStep s
  goes s w m =
      let f = WindsDown-Flags s w in
      elim (Admin-discrete s.admin Admin.done) [
        | no a ↦ admin_goes s.admin s refl f w.safe.inv a
        | yes a ↦ elim (Serving-discrete s.proxy Serving.done) [
          | no q ↦ proxy_goes s.proxy s refl f w.safe.inv q
          | yes q ↦ start_goes s m a q w.safe.inv
        ]
      ]

  pub returns_or_goes : (s : Server) → WindsDown s → (s.main ≡ returned) ⊎ CanStep s
  returns_or_goes s w = elim (WindsDown-Flags s w).main [ inl m ↦ inr (goes s w m) | inr m ↦ inl m ]
