-- ===== src/Server/Lifecycle/Always.antt =====
-- What holds in every state that a server comes to.
use crunchy_proxy.Go.{Outcome, ok, blocked, >>=-eq-ok, ok-injective}
use crunchy_proxy.Prelude.{
  ℕ, ◌≡◌, refl, sym, subst, Bool, false, Option, arith, [], ◌∷◌, ◌++◌, All, All-append, get_elem?,
  inl, inr, Option-cases, Bool-cases,
}
use crunchy_proxy.Proxy.Routing.{Proxy}
use crunchy_proxy.Server.Lifecycle.{
  Main, Admin, Serving, closed, close_listener, Server, new_server, start_step, admin_step,
  proxy_step, stop_step, shutdown_step, new_request, statistics_step, statistics, takes_requests,
  put_request, Event, starts, admin_serves, proxy_serves, shutdown_request, shutdown_goes_on,
  statistics_request, on_event, step, is_over, Reachable, start, next, set_up,
}
use crunchy_proxy.Server.Lifecycle.Count.{Inv, start_step-Inv, admin_step-Inv, proxy_step-Inv}
use crunchy_proxy.Server.Lifecycle.Requests.{
  Safe, Passed, All-Passed, has_closed, has_stopped, how_many-append, stop_step-Safe,
}

-- A step of the two loops or of `Start` leaves the requests and what they changed alone; the listener
-- is only stored where it was nil.
record Spares (s t : Server) : Type 0 where
  same_requests : t.requests ≡ s.requests
  same_channel : t.ch_closed ≡ s.ch_closed
  same_grpc : t.grpc_stopped ≡ s.grpc_stopped
  same_listener : s.listener ≡ closed → t.listener ≡ closed

Spares-Safe : {s t : Server} → Spares s t → Inv t → Safe s → Safe t
Spares-Safe {s} {t} k i v = record {
  inv = i;
  passed =
      subst (All (Passed t.listener)) (sym k.same_requests)
        (All-Passed s.requests k.same_listener v.passed);
  closers = rw (k.same_requests, k.same_channel) v.closers;
  stoppers = rw (k.same_requests, k.same_grpc) v.stoppers;
}

start_step-Spares :
    (m : Main) (b : Bool) (s : Server) {t : Server} → start_step m b s ≡ ok t → Spares s t
unfolding start_step
start_step-Spares m b s e = ground arith

admin_step-Spares :
    (a : Admin) (b : Bool) (s : Server) {t : Server} → admin_step a b s ≡ ok t → Spares s t
unfolding admin_step
admin_step-Spares a b s e = ground arith

proxy_step-Spares :
    (made : Outcome (Option Proxy)) (p : Serving) (b : Bool) (s : Server) {t : Server}
    → s.proxy ≡ p
    → Inv s
    → proxy_step made p b s ≡ ok t
    → Spares s t
unfolding proxy_step
proxy_step-Spares made Serving.setting_up b s a i e =
    let (r, m, q) = >>=-eq-ok made (λ r. ok (set_up r s)) e in ground arith
proxy_step-Spares made _ b s a i e = ground arith

shutdown_step-Safe : (i : ℕ) (s : Server) {t : Server} → Safe s → shutdown_step i s ≡ ok t → Safe t
unfolding shutdown_step
shutdown_step-Safe i s v e = elim (Option-cases (get_elem? s.requests i)) [
  | inl miss ↦ ground arith
  | inr (r, f) ↦
      let e' = rw (f, shutdown_step) at e in
      let (q, taken, rest) = >>=-eq-ok (stop_step r s) (λ q. ok (put_request i q)) e' in
      subst Safe (ok-injective rest) (stop_step-Safe i r s q f taken v)
]

add_request-Safe :
    (s : Server) → Safe s → Safe (record s { requests = s.requests ++ close_listener ∷ [] })
add_request-Safe s v = record {
  inv = ground (arith, v.inv);
  passed =
      All-append (Passed s.listener) s.requests (close_listener ∷ []) v.passed
        ((λ n. absurd (n refl)), tt);
  closers = omega (arith, how_many-append has_closed s.requests close_listener, v.closers);
  stoppers = omega (arith, how_many-append has_stopped s.requests close_listener, v.stoppers);
}

new_request-Safe : (s : Server) {t : Server} → Safe s → new_request s ≡ ok t → Safe t
unfolding new_request
new_request-Safe s v e = elim (Bool-cases (takes_requests s)) [
  | inl y ↦ subst Safe (ok-injective (rw (y, new_request) at e)) (add_request-Safe s v)
  | inr n ↦ ground arith
]

statistics_step-same : (s : Server) {t : Server} → statistics_step s ≡ ok t → s ≡ t
unfolding statistics_step
statistics_step-same s e = elim (Bool-cases (takes_requests s)) [
  | inl y ↦
      let (r, q, f) = >>=-eq-ok (statistics s) (λ r. ok s) (rw (y, statistics_step) at e) in
      ok-injective f
  | inr n ↦ ground arith
]

on_event-Safe :
    (made : Outcome (Option Proxy)) (e : Event) (s : Server) {t : Server}
    → is_over s.main ≡ false
    → Safe s
    → on_event made e s ≡ ok t
    → Safe t
on_event-Safe made (starts b) s o v e =
    Spares-Safe (start_step-Spares s.main b s e) (start_step-Inv s.main b s refl v.inv e) v
on_event-Safe made (admin_serves b) s o v e =
    Spares-Safe (admin_step-Spares s.admin b s e) (admin_step-Inv s.admin b s refl o v.inv e) v
on_event-Safe made (proxy_serves b) s o v e =
    Spares-Safe (proxy_step-Spares made s.proxy b s refl v.inv e)
      (proxy_step-Inv made s.proxy b s refl o v.inv e) v
on_event-Safe made shutdown_request s o v e = new_request-Safe s v e
on_event-Safe made (shutdown_goes_on i) s o v e = shutdown_step-Safe i s v e
on_event-Safe made statistics_request s o v e = subst Safe (statistics_step-same s e) v

pub step-event :
    (made : Outcome (Option Proxy)) (e : Event) (s : Server) {t : Server}
    → step made e s ≡ ok t
    → (is_over s.main ≡ false) × (on_event made e s ≡ ok t)
unfolding step
step-event made e s h = elim (Bool-cases (is_over s.main)) [
  | inl y ↦ absurd (over (rw (y, step) at h))
  | inr n ↦ (n, rw (n, step) at h)
]
  where
    over : {t : Server} → blocked ≡ ok t → ⊥
    over q = cc

pub step-alive :
    (made : Outcome (Option Proxy)) (e : Event) (s : Server)
    → is_over s.main ≡ false
    → step made e s ≡ on_event made e s
unfolding step
step-alive made e s o = rw o refl

new_server-Safe : Safe new_server
new_server-Safe = ground arith

pub step-Safe :
    (made : Outcome (Option Proxy)) (e : Event) (s : Server) {t : Server}
    → Safe s
    → step made e s ≡ ok t
    → Safe t
step-Safe made e s v h = let (o, h') = step-event made e s h in on_event-Safe made e s o v h'

pub Reachable-Safe : {made : Outcome (Option Proxy)} {s : Server} → Reachable made s → Safe s
Reachable-Safe start = new_server-Safe
Reachable-Safe {made} (next {s} e r h) = step-Safe made e s (Reachable-Safe r) h
