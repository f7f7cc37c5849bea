-- ===== src/Server/Lifecycle/Count.antt =====
-- What the wait group counts, and where the goroutines of a server can stand together.
use crunchy_proxy.Go.{Outcome, ok, >>=-eq-ok}
use crunchy_proxy.Prelude.{ℕ, not, ◌+◌, ◌≡◌, ◌≢◌, Bool, true, false, Option, none, some, arith}
use crunchy_proxy.Proxy.Routing.{Proxy}
use crunchy_proxy.Server.Lifecycle.{
  Main, listen_admin, listen_proxy, waiting, returned, fatal, Admin, serving, served, Serving,
  entered, setting_up, selecting, accepting, Listener, nil, closed, Stopping, close_listener,
  close_channel, stop_grpc, answered, Server, start_step, admin_step, proxy_step, stop_step,
  is_over, set_up,
}

-- Is the goroutine of `Serve` running?
abbrev pub admin_runs : Admin → ℕ
admin_runs Admin.unstarted = 0
admin_runs Admin.done = 0
admin_runs _ = 1

abbrev pub proxy_runs : Serving → ℕ
proxy_runs Serving.unstarted = 0
proxy_runs Serving.done = 0
proxy_runs _ = 1

-- Has `Serve` stored its listener, and has `NewProxy` returned?
abbrev pub has_listener : Serving → Bool
has_listener Serving.unstarted = false
has_listener entered = false
has_listener _ = true

abbrev pub is_set_up : Serving → Bool
is_set_up Serving.unstarted = false
is_set_up entered = false
is_set_up setting_up = false
is_set_up _ = true

abbrev is_nil : Listener → Bool
is_nil nil = true
is_nil _ = false

abbrev is_none {ℓ} : {A : Type ℓ} → Option A → Bool
is_none none = true
is_none (some _) = false

-- How far `Start` has to be for the two goroutines.
abbrev Fits : Main → Admin → Serving → Type 0
Fits listen_admin a p = (a ≡ Admin.unstarted) × (p ≡ Serving.unstarted)
Fits listen_proxy a p = (a ≢ Admin.unstarted) × (p ≡ Serving.unstarted)
Fits waiting a p = (a ≢ Admin.unstarted) × (p ≢ Serving.unstarted)
Fits returned a p = (a ≡ Admin.done) × (p ≡ Serving.done)
Fits fatal a p = Unit

pub record Inv (s : Server) : Type 0 where
  pub counted : s.wait_group ≡ admin_runs s.admin + proxy_runs s.proxy
  pub fits : Fits s.main s.admin s.proxy
  pub listens : is_nil s.listener ≡ not (has_listener s.proxy)
  pub ready : is_none s.p ≡ not (is_set_up s.proxy)
  pub channel : s.ch_closed ≡ true → s.listener ≡ closed
  pub stopped : s.proxy ≡ Serving.done → s.ch_closed ≡ true

pub start_step-Inv :
    (m : Main) (b : Bool) (s : Server) {t : Server}
    → s.main ≡ m
    → Inv s
    → start_step m b s ≡ ok t
    → Inv t
unfolding start_step
start_step-Inv listen_admin true s m i e = ground arith
start_step-Inv listen_admin false s m i e = ground arith
start_step-Inv listen_proxy true s m i e = ground arith
start_step-Inv listen_proxy false s m i e = ground arith
start_step-Inv waiting b s m i e = ground arith
start_step-Inv returned b s m i e = cc
start_step-Inv fatal b s m i e = cc

pub admin_step-Inv :
    (a : Admin) (b : Bool) (s : Server) {t : Server}
    → s.admin ≡ a
    → is_over s.main ≡ false
    → Inv s
    → admin_step a b s ≡ ok t
    → Inv t
unfolding admin_step
admin_step-Inv Admin.unstarted b s a o i e = cc
admin_step-Inv Admin.done b s a o i e = cc
admin_step-Inv serving b s a o i e = ground arith
admin_step-Inv served b s a o i e = ground arith

pub proxy_step-Inv :
    (made : Outcome (Option Proxy)) (p : Serving) (b : Bool) (s : Server) {t : Server}
    → s.proxy ≡ p
    → is_over s.main ≡ false
    → Inv s
    → proxy_step made p b s ≡ ok t
    → Inv t
unfolding proxy_step
proxy_step-Inv made Serving.unstarted b s a o i e = cc
proxy_step-Inv made Serving.done b s a o i e = cc
proxy_step-Inv made entered b s a o i e = ground arith
proxy_step-Inv made setting_up b s a o i e =
    let (r, m, q) = >>=-eq-ok made (λ r. ok (set_up r s)) e in ground arith
proxy_step-Inv made selecting b s a o i e = ground arith
proxy_step-Inv made accepting true s a o i e = ground arith
proxy_step-Inv made accepting false s a o i e = ground arith

-- A request to `Shutdown` only touches the listener, the channel and the service.
pub stop_step-Inv :
    (r : Stopping) (s : Server) {q : Stopping × Server}
    → (r ≢ close_listener → s.listener ≡ closed)
    → Inv s
    → stop_step r s ≡ ok q
    → Inv q.1
unfolding stop_step
stop_step-Inv close_listener s {q} l i e = ground arith
stop_step-Inv close_channel s {q} l i e = ground (arith, l (λ x. cc))
stop_step-Inv stop_grpc s {q} l i e = ground arith
stop_step-Inv answered s {q} l i e = cc
