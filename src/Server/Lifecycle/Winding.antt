-- ===== src/Server/Lifecycle/Winding.antt =====
-- A server whose one request to shut down is answered: every step brings it nearer to its end, and
-- one is possible until `Start` has returned.
use crunchy_proxy.Go.{Outcome, ok, blocked}
use crunchy_proxy.Prelude.{
  ℕ, zero, suc, ◌+◌, ◌<◌, ◌≡◌, ◌≢◌, ◌⊎◌, inl, inr, refl, subst, sym, ◌∙◌, Bool, true, false, Option,
  some, arith, [], ◌∷◌,
}
use crunchy_proxy.Proxy.Routing.{Proxy}
use crunchy_proxy.Server.Lifecycle.{
  Main, listen_admin, listen_proxy, waiting, returned, fatal, Admin, serving, served, Serving,
  setting_up, selecting, accepting, closed, answered, Server, start_step, admin_step, proxy_step,
  stop_step, shutdown_step, statistics_step, new_request, takes_requests, Event, starts,
  admin_serves, proxy_serves, shutdown_request, shutdown_goes_on, statistics_request, on_event,
}
use crunchy_proxy.Server.Lifecycle.Count.{Inv}
use crunchy_proxy.Server.Lifecycle.Requests.{Safe, has_closed, has_stopped, how_many, bit}

-- How many steps the goroutines have left at most, once the channel is closed.
abbrev pub main_left : Main → ℕ
main_left waiting = 1
main_left _ = 0

abbrev pub admin_left : Admin → ℕ
admin_left serving = 2
admin_left served = 1
admin_left _ = 0

abbrev pub proxy_left : Serving → ℕ
proxy_left setting_up = 2
proxy_left accepting = 2
proxy_left selecting = 1
proxy_left _ = 0

abbrev pub left : Server → ℕ
left s = main_left s.main + admin_left s.admin + proxy_left s.proxy

-- The one request to shut down has been answered, and the process has not failed.
pub record WindsDown (s : Server) : Type 0 where
  pub safe : Safe s
  pub one : s.requests ≡ answered ∷ []
  pub alive : s.main ≢ fatal

pub record Flags (s : Server) : Type 0 where
  pub ch : s.ch_closed ≡ true
  pub grpc : s.grpc_stopped ≡ true
  pub listener : s.listener ≡ closed
  pub main : (s.main ≡ waiting) ⊎ (s.main ≡ returned)

bit_one : (b : Bool) → 1 ≡ bit b → b ≡ true
bit_one true h = refl
bit_one false h = absurd (omega arith)

main_of :
    (m : Main) (s : Server)
    → s.main ≡ m
    → Inv s
    → s.listener ≡ closed
    → m ≢ fatal
    → (s.main ≡ waiting) ⊎ (s.main ≡ returned)
main_of listen_admin s e i l n = absurd (ground arith)
main_of listen_proxy s e i l n = absurd (ground arith)
main_of waiting s e i l n = inl e
main_of returned s e i l n = inr e
main_of fatal s e i l n = absurd (n refl)

pub WindsDown-Flags : (s : Server) → WindsDown s → Flags s
WindsDown-Flags s w =
    let v = w.safe in
    let c =
      bit_one s.ch_closed
        (subst (λ rs. how_many has_closed rs ≡ bit s.ch_closed) w.one v.closers) in
    let g =
      bit_one s.grpc_stopped
        (subst (λ rs. how_many has_stopped rs ≡ bit s.grpc_stopped) w.one v.stoppers) in
    let l = v.inv.channel c in
    record { ch = c; grpc = g; listener = l; main = main_of s.main s refl v.inv l w.alive }

impossible : {t : Server} → blocked ≡ ok t → ⊥
impossible e = cc

module _ (p : Proxy) where
  abbrev pub proxy_made : Outcome (Option Proxy)
  proxy_made = ok (some p)

  -- What a step of a server that winds down does.
  pub record Nearer (s t : Server) : Type 0 where
    pub fewer : left t < left s
    pub same_requests : t.requests ≡ s.requests
    pub alive : t.main ≢ fatal

  start_step-Nearer :
      (m : Main) (b : Bool) (s : Server) {t : Server}
      → s.main ≡ m
      → Flags s
      → start_step m b s ≡ ok t
      → Nearer s t
  unfolding start_step
  start_step-Nearer m b s q f e = ground arith

  admin_step-Nearer :
      (a : Admin) (b : Bool) (s : Server) {t : Server}
      → s.admin ≡ a
      → Flags s
      → s.main ≢ fatal
      → admin_step a b s ≡ ok t
      → Nearer s t
  unfolding admin_step
  admin_step-Nearer a b s q f n e = ground arith

  proxy_step-Nearer :
      (a : Serving) (b : Bool) (s : Server) {t : Server}
      → s.proxy ≡ a
      → Inv s
      → Flags s
      → s.main ≢ fatal
      → proxy_step proxy_made a b s ≡ ok t
      → Nearer s t
  unfolding proxy_step
  proxy_step-Nearer a b s q i f n e = ground arith

  no_request : (s : Server) → Flags s → takes_requests s ≡ false
  unfolding takes_requests
  no_request s f = ground arith

  pub request_blocked : (s : Server) → Flags s → new_request s ≡ blocked
  unfolding new_request
  request_blocked s f = rw (no_request s f, new_request) refl

  pub statistics_blocked : (s : Server) → Flags s → statistics_step s ≡ blocked
  unfolding statistics_step
  statistics_blocked s f = rw (no_request s f, statistics_step) refl

  pub shutdown_blocked :
      (i : ℕ) (s : Server) → s.requests ≡ answered ∷ [] → shutdown_step i s ≡ blocked
  unfolding shutdown_step stop_step
  shutdown_blocked zero s o = rw (o, shutdown_step) refl
  shutdown_blocked (suc i) s o = rw (o, shutdown_step) refl

  pub on_event-Nearer :
      (e : Event) (s : Server) {t : Server}
      → WindsDown s
      → on_event proxy_made e s ≡ ok t
      → Nearer s t
  on_event-Nearer (starts b) s w h = start_step-Nearer s.main b s refl (WindsDown-Flags s w) h
  on_event-Nearer (admin_serves b) s w h =
      admin_step-Nearer s.admin b s refl (WindsDown-Flags s w) w.alive h
  on_event-Nearer (proxy_serves b) s w h =
      proxy_step-Nearer s.proxy b s refl w.safe.inv (WindsDown-Flags s w) w.alive h
  on_event-Nearer shutdown_request s w h =
      absurd (impossible (sym (request_blocked s (WindsDown-Flags s w)) ∙ h))
  on_event-Nearer (shutdown_goes_on i) s w h =
      absurd (impossible (sym (shutdown_blocked i s w.one) ∙ h))
  on_event-Nearer statistics_request s w h =
      absurd (impossible (sym (statistics_blocked s (WindsDown-Flags s w)) ∙ h))
