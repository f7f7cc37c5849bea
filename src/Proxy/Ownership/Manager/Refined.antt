-- ===== src/Proxy/Ownership/Manager/Refined.antt =====
-- Orderly executions are executions of the manager of connections.
use native.Mathlib.Decide.{ℕ_discrete}
use crunchy_proxy.Go.{ok}
use crunchy_proxy.Prelude.{
  ℕ, zero, suc, ◌+◌, ◌≡◌, ◌≢◌, ◌⊎◌, inl, inr, refl, ap, sym, subst, ◌∙◌, Bool, List, [], ◌∷◌,
  Option, none, some, arith, get_elem?, set, All, All-get_elem?, Option-cases,
}
use crunchy_proxy.Proxy.Annotation.{Annotations}
use crunchy_proxy.Proxy.Handler.{
  note_annotations, needs_backend, Phase, receiving, took_pool, took_backend, serving, Handler,
  Action, query, next_connection, give_pool_back, answered, other_message, hang_up, on_query,
  on_next, on_return_pool, on_answered, handler_step, System, put,
}
use crunchy_proxy.Proxy.Ownership.Runs.{
  OrderlyStep, OrderlyRun, done, more, OrderlyRun-Inv, step-found,
}
use crunchy_proxy.Proxy.Ownership.Safety.{counts_pair, IsStart, IsStart-Inv}
use crunchy_proxy.Proxy.Ownership.Steps.{IsOrderly, PhaseInv, Inv, handler_step-Keeps}
use crunchy_proxy.Proxy.Ownership.Weights.{Weight, pools_weight, held_weight}
use crunchy_proxy.Proxy.Routing.{Proxy}
use crunchy_proxy.Proxy.Ownership.Manager.{
  Allowed, nothing, acquire, release, Trace, start, later, holding, holding_at, manager,
}

abbrev weigh : Weight → Option (ℕ × ℕ) → ℕ
weigh w none = 0
weigh w (some (k, c)) = w k c

held_weight-weigh :
    (w : Weight) (f : Phase) (b : Bool) (cp backend : Option ℕ) (h : Handler)
    → h.phase ≡ f
    → h.statement_block ≡ b
    → h.cp ≡ cp
    → h.backend ≡ backend
    → held_weight w h ≡ weigh w (holding h)
held_weight-weigh w f b cp backend h p q r s = ground arith

-- A step that keeps a connection keeps the same one.
abbrev Same : Handler → Handler → Type 0
Same h h' = (holding h ≡ none) ⊎ (holding h' ≡ none) ⊎ (holding h' ≡ holding h)

on_query-Same :
    (a : Annotations) (h : Handler) (p : Proxy) {r : Handler × Proxy}
    → h.phase ≡ receiving
    → PhaseInv receiving h
    → IsOrderly (query a) h
    → on_query a h p ≡ ok r
    → Same h r.0
unfolding on_query note_annotations needs_backend
on_query-Same a h p e v o s = ground arith

on_next-Same :
    (h : Handler) (p : Proxy) {r : Handler × Proxy}
    → h.phase ≡ took_pool
    → on_next h p ≡ ok r
    → Same h r.0
on_next-Same h p e s = ground arith

on_return_pool-Same :
    (h : Handler) (p : Proxy) {r : Handler × Proxy}
    → h.phase ≡ took_backend
    → on_return_pool h p ≡ ok r
    → Same h r.0
unfolding on_return_pool
on_return_pool-Same h p e s = ground arith

on_answered-Same :
    (h : Handler) (p : Proxy) {r : Handler × Proxy}
    → h.phase ≡ serving
    → on_answered h p ≡ ok r
    → Same h r.0
unfolding on_answered
on_answered-Same h p e s = ground arith

handler_step-Same :
    (f : Phase) (a : Action) (h : Handler) (p : Proxy) {r : Handler × Proxy}
    → h.phase ≡ f
    → PhaseInv f h
    → IsOrderly a h
    → handler_step f a h p ≡ ok r
    → Same h r.0
unfolding handler_step
handler_step-Same receiving (query a) h p e v o s = on_query-Same a h p e v o s
handler_step-Same receiving other_message h p e v o s = ground arith
handler_step-Same receiving hang_up h p e v o s = ground arith
handler_step-Same took_pool next_connection h p e v o s = on_next-Same h p e s
handler_step-Same took_backend give_pool_back h p e v o s = on_return_pool-Same h p e s
handler_step-Same serving answered h p e v o s = on_answered-Same h p e s
handler_step-Same _ _ h p e v o s = cc

holding_at-found :
    (hs : List Handler) (i : ℕ) (h : Handler)
    → get_elem? hs i ≡ some h
    → holding_at hs i ≡ holding h
holding_at-found hs i h e = rw (e, holding_at)

holding_at-set :
    (hs : List Handler) (i : ℕ) (h h' : Handler)
    → get_elem? hs i ≡ some h
    → holding_at (set hs i h') i ≡ holding h'
holding_at-set [] i h h' e = cc
holding_at-set (x ∷ hs) zero h h' e = refl
holding_at-set (x ∷ hs) (suc i) h h' e = holding_at-set hs i h h' e

holding_at-set_other :
    (hs : List Handler) (i j : ℕ) (h' : Handler)
    → j ≢ i
    → holding_at (set hs i h') j ≡ holding_at hs j
holding_at-set_other [] i j h' n = refl
holding_at-set_other (x ∷ hs) zero zero h' n = absurd (n refl)
holding_at-set_other (x ∷ hs) zero (suc j) h' n = refl
holding_at-set_other (x ∷ hs) (suc i) zero h' n = refl
holding_at-set_other (x ∷ hs) (suc i) (suc j) h' n =
    holding_at-set_other hs i j h' (λ e. n (ap suc e))

module _ (s : System) (i : ℕ) (h h' : Handler) (p' : Proxy) (hit : get_elem? s.handlers i ≡ some h)
    (kept : (w : Weight)
      → pools_weight w p'.pools + held_weight w h'
        ≡ pools_weight w s.proxy.pools + held_weight w h) where
  weighed :
      (w : Weight)
      → pools_weight w p'.pools + weigh w (holding h')
        ≡ pools_weight w s.proxy.pools + weigh w (holding h)
  weighed w = omega (
    arith,
    kept w,
    held_weight-weigh w h.phase h.statement_block h.cp h.backend h refl refl refl refl,
    held_weight-weigh w h'.phase h'.statement_block h'.cp h'.backend h' refl refl refl refl,
  )

  after : System
  after = put s i (h', p')

  same_owners :
      holding h' ≡ holding h
      → (j : ℕ) → holding_at (set s.handlers i h') j ≡ holding_at s.handlers j
  same_owners e j = elim (ℕ_discrete j i) [
    | yes q ↦
        subst (λ k. holding_at (set s.handlers i h') k ≡ holding_at s.handlers k) (sym q)
          (holding_at-set s.handlers i h h' hit ∙ e ∙ sym (holding_at-found s.handlers i h hit))
    | no n ↦ holding_at-set_other s.handlers i j h' n
  ]

  unmoved : holding h' ≡ holding h → Allowed (manager s) (manager (put s i (h', p')))
  unmoved e =
      nothing (same_owners e)
        (λ k c. omega (arith, weighed (counts_pair k c), ap (weigh (counts_pair k c)) e))

  acquired :
      (k c : ℕ)
      → holding h ≡ none
      → holding h' ≡ some (k, c)
      → Allowed (manager s) (manager (put s i (h', p')))
  acquired k c e e' = acquire i k c (record {
    owns_none = holding_at-found s.handlers i h hit ∙ e;
    owns = holding_at-set s.handlers i h h' hit ∙ e';
    others = λ j n. holding_at-set_other s.handlers i j h' n;
    taken = λ k' c'. omega (
      arith,
      weighed (counts_pair k' c'),
      ap (weigh (counts_pair k' c')) e,
      ap (weigh (counts_pair k' c')) e',
    );
  })

  released :
      (k c : ℕ)
      → holding h ≡ some (k, c)
      → holding h' ≡ none
      → Allowed (manager s) (manager (put s i (h', p')))
  released k c e e' = release i k c (record {
    owns_none = holding_at-set s.handlers i h h' hit ∙ e';
    owns = holding_at-found s.handlers i h hit ∙ e;
    others = λ j n. sym (holding_at-set_other s.handlers i j h' n);
    taken = λ k' c'. omega (
      arith,
      weighed (counts_pair k' c'),
      ap (weigh (counts_pair k' c')) e,
      ap (weigh (counts_pair k' c')) e',
    );
  })

  put-Allowed : Same h h' → Allowed (manager s) (manager (put s i (h', p')))
  put-Allowed same = elim (Option-cases (holding h)) [
    | inl e ↦ elim (Option-cases (holding h')) [
      | inl e' ↦ unmoved (e' ∙ sym e)
      | inr ((k, c), e') ↦ acquired k c e e'
    ]
    | inr ((k, c), e) ↦ elim (Option-cases (holding h')) [
      | inl e' ↦ released k c e e'
      | inr (y, e') ↦ unmoved (kept_one same e e')
    ]
  ]
    where
      kept_one :
          {x y : ℕ × ℕ}
          → Same h h'
          → holding h ≡ some x
          → holding h' ≡ some y
          → holding h' ≡ holding h
      kept_one (inl n) e e' = cc
      kept_one (inr (inl n)) e e' = cc
      kept_one (inr (inr q)) e e' = q

OrderlyStep-Allowed :
    {i : ℕ} {a : Action} {s t : System}
    → All Inv s.handlers
    → OrderlyStep i a s t
    → Allowed (manager s) (manager t)
OrderlyStep-Allowed {i} {a} {s} v o =
    let (r, e, q) = step-found i a s o.handler o.found o.steps in
    let inv = All-get_elem? Inv s.handlers i v o.found in
    subst (λ t. Allowed (manager s) (manager t)) (sym q)
      (put-Allowed s i o.handler r.0 r.1 o.found
        (λ w.
          (handler_step-Keeps w o.handler.phase a o.handler s.proxy refl inv o.in_order e).weight)
        (handler_step-Same o.handler.phase a o.handler s.proxy refl inv o.in_order e))

runs-Trace : {s t : System} → All Inv s.handlers → OrderlyRun s t → Trace (manager s) (manager t)
runs-Trace v done = start
runs-Trace v (more r o) = later (runs-Trace v r) (OrderlyStep-Allowed (OrderlyRun-Inv v r) o)

-- An orderly execution, in which the handlers run in any order, is one of a manager of connections:
-- each of its steps hands a free connection of a pool to a client that owns none, or takes one back
-- from its owner into the pool that it came from, or moves no connection.
pub OrderlyRun-Trace : {s t : System} → IsStart s → OrderlyRun s t → Trace (manager s) (manager t)
OrderlyRun-Trace {s} a r = runs-Trace (IsStart-Inv s.handlers a) r
