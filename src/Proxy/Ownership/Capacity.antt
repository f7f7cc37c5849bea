-- ===== src/Proxy/Ownership/Capacity.antt =====
-- The capacities of the pools do not change, and a handler's pool exists.
use crunchy_proxy.Go.{ok}
use crunchy_proxy.Pool.{Pool}
use crunchy_proxy.Prelude.{
  ℕ, zero, suc, ◌≡◌, refl, ap, ◌∙◌, Bool, true, false, List, [], ◌∷◌, Option, none, some, arith,
  get_elem?, set, All, All-get_elem?, All-set,
}
use crunchy_proxy.Proxy.Annotation.{Annotations}
use crunchy_proxy.Proxy.Handler.{
  note_annotations, needs_backend, give_up_backend, Phase, receiving, took_pool, took_backend,
  serving, Handler, Action, query, next_connection, give_pool_back, answered, other_message,
  hang_up, on_query, on_next, on_return_pool, on_answered, handler_step, System, new_handler,
}
use crunchy_proxy.Proxy.Ownership.Runs.{
  OrderlyStep, OrderlyStep-Inv, OrderlyRun, done, more, step-found,
}
use crunchy_proxy.Proxy.Ownership.Steps.{IsOrderly, Inv}
use crunchy_proxy.Proxy.Routing.Moves.{
  next_backend-Takes, return_backend-Gives, get_pool-pools, return_pool-pools,
}
use crunchy_proxy.Proxy.Routing.{Proxy, next_backend, return_backend}

abbrev pub caps : List Pool → List ℕ
caps [] = []
caps (p ∷ ps) = p.connections.cap ∷ caps ps

caps-set :
    (ps : List Pool) (k : ℕ) (p q : Pool)
    → get_elem? ps k ≡ some p
    → q.connections.cap ≡ p.connections.cap
    → caps (set ps k q) ≡ caps ps
caps-set [] k p q e c = cc
caps-set (x ∷ ps) zero p q e c = ground arith
caps-set (x ∷ ps) (suc k) p q e c = ap (◌∷◌ x.connections.cap) (caps-set ps k p q e c)

caps-found :
    (ps : List Pool) (k : ℕ) (p : Pool)
    → get_elem? ps k ≡ some p
    → get_elem? (caps ps) k ≡ some p.connections.cap
caps-found [] k p e = cc
caps-found (x ∷ ps) zero p e = ground arith
caps-found (x ∷ ps) (suc k) p e = caps-found ps k p e

pub found-caps :
    (ps : List Pool) (k n : ℕ)
    → get_elem? (caps ps) k ≡ some n
    → (p : Pool) × (get_elem? ps k ≡ some p) × (p.connections.cap ≡ n)
found-caps [] k n e = cc
found-caps (x ∷ ps) zero n e = (x, refl, ground arith)
found-caps (x ∷ ps) (suc k) n e = found-caps ps k n e

return_backend-caps :
    (cp backend : ℕ) (p : Proxy) {p' : Proxy}
    → return_backend cp backend p ≡ ok p'
    → caps p'.pools ≡ caps p.pools
return_backend-caps cp backend p e =
    let t = return_backend-Gives cp backend p e in
    ap (λ (q : Proxy). caps q.pools) t.result
    ∙ caps-set p.pools cp t.pool t.filled t.found t.given.cap

abbrev pub is_some : Option ℕ → Bool
is_some none = false
is_some (some _) = true

abbrev pub points_to_pool : List ℕ → Option ℕ → Bool
points_to_pool cs none = false
points_to_pool cs (some k) = is_some (get_elem? cs k)

-- The handler's pool exists.
abbrev pub HasPool : List ℕ → Handler → Type 0
HasPool cs h = points_to_pool cs h.cp ≡ true

next_backend-caps :
    (cp : ℕ) (p : Proxy) {r : ℕ × Proxy} → next_backend cp p ≡ ok r → caps r.1.pools ≡ caps p.pools
next_backend-caps cp p e =
    let t = next_backend-Takes cp p e in
    ap (λ (q : Proxy). caps q.pools) t.result
    ∙ caps-set p.pools cp t.pool t.left t.found t.taken.cap

next_backend-points_to_pool :
    (cp : ℕ) (p : Proxy) {r : ℕ × Proxy}
    → next_backend cp p ≡ ok r
    → points_to_pool (caps p.pools) (some cp) ≡ true
next_backend-points_to_pool cp p e =
    let t = next_backend-Takes cp p e in ap is_some (caps-found p.pools cp t.pool t.found)

abbrev pub PoolInv : List ℕ → Phase → Handler → Type 0
PoolInv cs receiving h = h.statement_block ≡ true → HasPool cs h
PoolInv cs took_backend h = HasPool cs h
PoolInv cs serving h = HasPool cs h
PoolInv cs _ h = Unit {0}

record KeepsPools (cs : List ℕ) (p' : Proxy) (h' : Handler) : Type 0 where
  same_caps : caps p'.pools ≡ cs
  pool_inv : PoolInv cs h'.phase h'

on_query-KeepsPools :
    (a : Annotations) (h : Handler) (p : Proxy) {r : Handler × Proxy}
    → h.phase ≡ receiving
    → Inv h
    → PoolInv (caps p.pools) receiving h
    → IsOrderly (query a) h
    → on_query a h p ≡ ok r
    → KeepsPools (caps p.pools) r.1 r.0
unfolding on_query note_annotations needs_backend
on_query-KeepsPools a h p f v q o e = grind (arith, get_pool-pools)

on_next-KeepsPools :
    (h : Handler) (p : Proxy) {r : Handler × Proxy}
    → on_next h p ≡ ok r
    → KeepsPools (caps p.pools) r.1 r.0
unfolding on_next
on_next-KeepsPools h p e = grind (arith, next_backend-caps, next_backend-points_to_pool)

on_return_pool-KeepsPools :
    (h : Handler) (p : Proxy) {r : Handler × Proxy}
    → HasPool (caps p.pools) h
    → on_return_pool h p ≡ ok r
    → KeepsPools (caps p.pools) r.1 r.0
unfolding on_return_pool
on_return_pool-KeepsPools h p q e = grind (arith, return_pool-pools)

on_answered-KeepsPools :
    (h : Handler) (p : Proxy) {r : Handler × Proxy}
    → HasPool (caps p.pools) h
    → on_answered h p ≡ ok r
    → KeepsPools (caps p.pools) r.1 r.0
unfolding on_answered give_up_backend
on_answered-KeepsPools h p q e = grind (arith, return_backend-caps)

handler_step-KeepsPools :
    (f : Phase) (a : Action) (h : Handler) (p : Proxy) {r : Handler × Proxy}
    → h.phase ≡ f
    → Inv h
    → PoolInv (caps p.pools) f h
    → IsOrderly a h
    → handler_step f a h p ≡ ok r
    → KeepsPools (caps p.pools) r.1 r.0
unfolding handler_step
handler_step-KeepsPools receiving (query a) h p f v q o e = on_query-KeepsPools a h p f v q o e
handler_step-KeepsPools receiving other_message h p f v q o e = ground arith
handler_step-KeepsPools receiving hang_up h p f v q o e = ground arith
handler_step-KeepsPools took_pool next_connection h p f v q o e = on_next-KeepsPools h p e
handler_step-KeepsPools took_backend give_pool_back h p f v q o e =
    on_return_pool-KeepsPools h p q e
handler_step-KeepsPools serving answered h p f v q o e = on_answered-KeepsPools h p q e
handler_step-KeepsPools _ _ h p f v q o e = cc

abbrev pub PoolsInv : List ℕ → System → Type 0
PoolsInv cs s =
    (caps s.proxy.pools ≡ cs) × All Inv s.handlers × All (λ h. PoolInv cs h.phase h) s.handlers

OrderlyStep-PoolsInv :
    {cs : List ℕ} {i : ℕ} {a : Action} {s t : System}
    → PoolsInv cs s
    → OrderlyStep i a s t
    → PoolsInv cs t
OrderlyStep-PoolsInv {cs} {i} {a} {s} (same, v, q) o =
    let (r, e, put_eq) = step-found i a s o.handler o.found o.steps in
    let inv = All-get_elem? Inv s.handlers i v o.found in
    let pool_inv = All-get_elem? (λ h. PoolInv cs h.phase h) s.handlers i q o.found in
    let k =
      handler_step-KeepsPools o.handler.phase a o.handler s.proxy refl inv (rw same pool_inv)
        o.in_order e in
    (
      ap (λ (t : System). caps t.proxy.pools) put_eq ∙ k.same_caps ∙ same,
      OrderlyStep-Inv v o,
      rw put_eq (All-set (λ h. PoolInv cs h.phase h) s.handlers i r.0 q (rw same at k.pool_inv)),
    )

pub OrderlyRun-PoolsInv :
    {cs : List ℕ} {s t : System} → PoolsInv cs s → OrderlyRun s t → PoolsInv cs t
OrderlyRun-PoolsInv v done = v
OrderlyRun-PoolsInv v (more r o) = OrderlyStep-PoolsInv (OrderlyRun-PoolsInv v r) o

pub IsStart-PoolInv :
    (cs : List ℕ) (hs : List Handler)
    → All (λ h. h ≡ new_handler) hs
    → All (λ h. PoolInv cs h.phase h) hs
IsStart-PoolInv cs [] a = tt
IsStart-PoolInv cs (h ∷ hs) a = (ground arith, IsStart-PoolInv cs hs a.1)
