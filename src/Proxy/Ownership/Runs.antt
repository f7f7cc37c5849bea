-- ===== src/Proxy/Ownership/Runs.antt =====
-- Whole executions: any number of handlers, interleaved in any way.
use crunchy_proxy.Go.{ok, >>=-eq-ok, ◌>>=◌}
use crunchy_proxy.Prelude.{
  ℕ, ◌+◌, ◌≡◌, ◌≢◌, refl, ap, ◌∙◌, none, some, arith, get_elem?, All, All-get_elem?, All-set,
}
use crunchy_proxy.Proxy.Handler.{Handler, Action, System, handler_step, handler_at, step, put}
use crunchy_proxy.Proxy.Ownership.Steps.{IsOrderly, Inv, handler_step-Keeps}
use crunchy_proxy.Proxy.Ownership.Weights.{
  Weight, pools_weight, handlers_weight, handlers_weight-set,
}
use crunchy_proxy.Proxy.Routing.{Proxy}

abbrev pub total_weight : Weight → System → ℕ
total_weight w s = pools_weight w s.proxy.pools + handlers_weight w s.handlers

-- Handler `i` takes action `a`, in order.
pub record OrderlyStep (i : ℕ) (a : Action) (s t : System) : Type 0 where
  pub handler : Handler
  pub found : get_elem? s.handlers i ≡ some handler
  pub in_order : IsOrderly a handler
  pub steps : step i a s ≡ ok t

-- An execution in which every session is orderly.
pub data OrderlyRun (s : System) : System → Type 0 where
  done : OrderlyRun s s
  more : {t u : System} {i : ℕ} {a : Action} → OrderlyRun s t → OrderlyStep i a t u → OrderlyRun s u

handler_at-found :
    (i : ℕ) (s : System) (h : Handler) → get_elem? s.handlers i ≡ some h → handler_at i s ≡ ok h
unfolding handler_at
handler_at-found i s h e = rw (e, handler_at)

pub step-total :
    (i : ℕ) (a : Action) (s : System) (h : Handler) {r : Handler × Proxy}
    → get_elem? s.handlers i ≡ some h
    → handler_step h.phase a h s.proxy ≡ ok r
    → step i a s ≡ ok (put s i r)
unfolding step
step-total i a s h hit e =
    rw (handler_at-found i s h hit, step) (ap (λ o. o >>= λ r. ok (put s i r)) e)

pub step-missing :
    (i : ℕ) (a : Action) (s : System) {t : System}
    → get_elem? s.handlers i ≡ none
    → step i a s ≢ ok t
unfolding step handler_at
step-missing i a s miss e = ground arith

-- What a step that is taken leaves.
pub step-found :
    (i : ℕ) (a : Action) (s : System) (h : Handler) {t : System}
    → get_elem? s.handlers i ≡ some h
    → step i a s ≡ ok t
    → (r : Handler × Proxy) × (handler_step h.phase a h s.proxy ≡ ok r) × (t ≡ put s i r)
unfolding step
step-found i a s h hit e =
    let first = rw (handler_at-found i s h hit, step) at e in
    let (r, taken, rest) =
      >>=-eq-ok (handler_step h.phase a h s.proxy) (λ r. ok (put s i r)) first in
    (r, taken, ground arith)

pub OrderlyStep-total_weight :
    (w : Weight) {i : ℕ} {a : Action} {s t : System}
    → All Inv s.handlers
    → OrderlyStep i a s t
    → total_weight w t ≡ total_weight w s
OrderlyStep-total_weight w {i} {a} {s} v o =
    let (r, e, q) = step-found i a s o.handler o.found o.steps in
    let k =
      handler_step-Keeps w o.handler.phase a o.handler s.proxy refl
        (All-get_elem? Inv s.handlers i v o.found) o.in_order e in
    omega (
      arith,
      ap (total_weight w) q,
      k.weight,
      handlers_weight-set w s.handlers i o.handler r.0 o.found,
    )

pub OrderlyStep-Inv :
    {i : ℕ} {a : Action} {s t : System}
    → All Inv s.handlers
    → OrderlyStep i a s t
    → All Inv t.handlers
OrderlyStep-Inv {i} {a} {s} v o =
    let (r, e, q) = step-found i a s o.handler o.found o.steps in
    let k =
      handler_step-Keeps (λ _ _. 0) o.handler.phase a o.handler s.proxy refl
        (All-get_elem? Inv s.handlers i v o.found) o.in_order e in
    rw q (All-set Inv s.handlers i r.0 v k.inv)

pub OrderlyRun-Inv : {s t : System} → All Inv s.handlers → OrderlyRun s t → All Inv t.handlers
OrderlyRun-Inv v done = v
OrderlyRun-Inv v (more r o) = OrderlyStep-Inv (OrderlyRun-Inv v r) o

pub OrderlyRun-total_weight :
    (w : Weight) {s t : System}
    → All Inv s.handlers
    → OrderlyRun s t
    → total_weight w t ≡ total_weight w s
OrderlyRun-total_weight w v done = refl
OrderlyRun-total_weight w v (more r o) =
    OrderlyStep-total_weight w (OrderlyRun-Inv v r) o ∙ OrderlyRun-total_weight w v r
