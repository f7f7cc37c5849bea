-- ===== src/Proxy/Ownership/Returns.antt =====
-- A handler that returns its connection never waits: there is room for it in the pool.
use crunchy_proxy.Proxy.Ownership.Capacity.{
  caps, is_some, found-caps, PoolInv, PoolsInv, OrderlyRun-PoolsInv, IsStart-PoolInv,
}
use crunchy_proxy.Proxy.Ownership.Safety.{IsStart-Inv, held-le}
use crunchy_proxy.Proxy.Ownership.Runs.{step-total}
use mathlib.Core.Option.{some-injective}
use crunchy_proxy.Go.{ok}
use crunchy_proxy.Pool.Fifo.{give_back_total}
use crunchy_proxy.Pool.{Pool}
use crunchy_proxy.Prelude.{
  ℕ, zero, suc, ◌≤◌, ◌<◌, ◌≡◌, ◌≢◌, refl, ap, inl, inr, true, false, List, [], ◌∷◌, Option, none,
  some, arith, get_elem?, length, All, All-get_elem?, ◌==◌, ==_refl, ==_false, if◌then◌else◌,
  Option-cases, Bool-cases,
}
use crunchy_proxy.Proxy.Handler.{
  note_annotations, needs_backend, give_up_backend, receiving, serving, Handler, answered, on_query,
  on_answered, handler_step, step, System, put, new_handler, put,
}
use crunchy_proxy.Proxy.Ownership.Runs.{OrderlyRun, OrderlyRun-total_weight}
use crunchy_proxy.Proxy.Ownership.Safety.{IsStart}
use crunchy_proxy.Proxy.Ownership.Steps.{Inv, PhaseInv}
use crunchy_proxy.Proxy.Ownership.Weights.{
  Weight, items_weight, pools_weight, held_weight, handlers_weight,
}
use crunchy_proxy.Proxy.Routing.{Proxy, return_backend, deref, store}

-- Counts the connections of pool `k`.
abbrev pub counts_pool : ℕ → Weight
counts_pool k k' c = if k' == k then 1 else 0

items_weight_one : (f : ℕ → ℕ) (xs : List ℕ) → ((c : ℕ) → f c ≡ 1) → items_weight f xs ≡ length xs
items_weight_one f [] h = refl
items_weight_one f (x ∷ xs) h = omega (arith, h x, items_weight_one f xs h)

items_weight_zero : (f : ℕ → ℕ) (xs : List ℕ) → ((c : ℕ) → f c ≡ 0) → items_weight f xs ≡ 0
items_weight_zero f [] h = refl
items_weight_zero f (x ∷ xs) h = omega (arith, h x, items_weight_zero f xs h)

pools_weight_zero : (w : Weight) (ps : List Pool) → ((k c : ℕ) → w k c ≡ 0) → pools_weight w ps ≡ 0
pools_weight_zero w [] h = refl
pools_weight_zero w (p ∷ ps) h = omega (
  arith,
  items_weight_zero (w 0) p.connections.items (h 0),
  pools_weight_zero (λ k. w (suc k)) ps (λ k. h (suc k)),
)

pools_weight_one :
    (w : Weight) (ps : List Pool) (k : ℕ) {p : Pool}
    → ((c : ℕ) → w k c ≡ 1)
    → ((k' c : ℕ) → k' ≢ k → w k' c ≡ 0)
    → get_elem? ps k ≡ some p
    → pools_weight w ps ≡ length p.connections.items
pools_weight_one w [] k h z e = cc
pools_weight_one w (x ∷ ps) zero {p} h z e = omega (
  arith,
  items_weight_one (w 0) x.connections.items h,
  pools_weight_zero (λ k. w (suc k)) ps (λ k c. z (suc k) c (ground arith)),
  ap (λ (q : Pool). length q.connections.items) (some-injective _ _ e),
)
pools_weight_one w (x ∷ ps) (suc k) h z e = omega (
  arith,
  items_weight_zero (w 0) x.connections.items (λ c. z 0 c (ground arith)),
  pools_weight_one (λ k. w (suc k)) ps k h (λ k' c n. z (suc k') c (λ q. n (ground arith))) e,
)

-- No pool holds more than its capacity.
abbrev pub WithinCapacity : List Pool → Type 0
WithinCapacity = All (λ (p : Pool). length p.connections.items ≤ p.connections.cap)

counts_pool-pools :
    (k : ℕ) (ps : List Pool) {p : Pool}
    → get_elem? ps k ≡ some p
    → pools_weight (counts_pool k) ps ≡ length p.connections.items
counts_pool-pools k ps e =
    pools_weight_one (counts_pool k) ps k (λ c. rw ==_refl) (λ k' c n. rw (==_false k' k n)) e

new-handlers_weight :
    (w : Weight) (hs : List Handler) → All (λ h. h ≡ new_handler) hs → handlers_weight w hs ≡ 0
new-handlers_weight w [] a = refl
new-handlers_weight w (h ∷ hs) a = ground (arith, new-handlers_weight w hs a.1)

WithinCapacity-found :
    (ps : List Pool) (k n : ℕ)
    → WithinCapacity ps
    → get_elem? (caps ps) k ≡ some n
    → pools_weight (counts_pool k) ps ≤ n
WithinCapacity-found ps k n fits e =
    let (p, found, cap) = found-caps ps k n e in
    omega (
      arith,
      counts_pool-pools k ps found,
      cap,
      All-get_elem? (λ (p : Pool). length p.connections.items ≤ p.connections.cap) ps k fits found,
    )

return_backend_total :
    (k c : ℕ) (p : Proxy) (pool : Pool)
    → get_elem? p.pools k ≡ some pool
    → length pool.connections.items < pool.connections.cap
    → (p' : Proxy) × (return_backend k c p ≡ ok p')
unfolding return_backend deref
return_backend_total k c p pool found room =
    let (filled, e) = give_back_total pool c room in (store k filled p, ground arith)

is_some-elim : (o : Option ℕ) → is_some o ≡ true → (n : ℕ) × (o ≡ some n)
is_some-elim none e = cc
is_some-elim (some n) e = (n, refl)

held_weight-one :
    (k c : ℕ) (h : Handler)
    → h.phase ≡ serving
    → h.cp ≡ some k
    → h.backend ≡ some c
    → held_weight (counts_pool k) h ≡ 1
held_weight-one k c h e cp backend = ground arith

module _ {s t : System} (i : ℕ) {h : Handler} (a : IsStart s) (fits : WithinCapacity s.proxy.pools)
    (r : OrderlyRun s t) (found : get_elem? t.handlers i ≡ some h) (e : h.phase ≡ serving) where
  pools_inv : PoolsInv (caps s.proxy.pools) t
  pools_inv = OrderlyRun-PoolsInv (refl, IsStart-Inv s.handlers a, IsStart-PoolInv _ s.handlers a) r

  inv_of : PhaseInv serving h
  inv_of = rw e at (All-get_elem? Inv t.handlers i pools_inv.1 found)

  -- While connection `c` of pool `k` is out, the pool has room for it.
  room :
      (k c : ℕ)
      → h.cp ≡ some k
      → h.backend ≡ some c
      → (pool : Pool) × (get_elem? t.proxy.pools k ≡ some pool)
        × (length pool.connections.items < pool.connections.cap)
  room k c cp backend =
      let inv : PoolInv (caps s.proxy.pools) serving h = rw e at (
        All-get_elem? (λ h. PoolInv (caps s.proxy.pools) h.phase h) t.handlers i pools_inv.2
          found) in
      let (n, cap_found) = is_some-elim (get_elem? (caps s.proxy.pools) k) (rw cp at inv) in
      let (pool, pool_found, cap) = found-caps t.proxy.pools k n (rw pools_inv.0 cap_found) in
      (
        pool,
        pool_found,
        omega (
          arith,
          cap,
          counts_pool-pools k t.proxy.pools pool_found,
          WithinCapacity-found s.proxy.pools k n fits cap_found,
          new-handlers_weight (counts_pool k) s.handlers a,
          OrderlyRun-total_weight (counts_pool k) (IsStart-Inv s.handlers a) r,
          held-le (counts_pool k) t.handlers i found,
          held_weight-one k c h e cp backend,
        ),
      )

  answered_total : (q : Handler × Proxy) × (handler_step h.phase answered h t.proxy ≡ ok q)
  unfolding handler_step on_query note_annotations needs_backend on_answered give_up_backend
  answered_total = elim (Bool-cases h.statement_block) [
    | inl block ↦ ((record h { phase = receiving }, t.proxy), ground arith)
    | inr free ↦ elim (Option-cases h.cp) [
      | inl missing ↦ absurd ((inv_of).1 missing)
      | inr (k, cp) ↦ elim (Option-cases h.backend) [
        | inl missing ↦ absurd ((inv_of).2 missing)
        | inr (c, backend) ↦
            let (pool, pool_found, fits) = room k c cp backend in
            let (p', returned) = return_backend_total k c t.proxy pool pool_found fits in
            ((record h { phase = receiving; at_end = false }, p'), ground arith)
      ]
    ]
  ]

  -- In an orderly execution from the start, with pools that are within their capacities, a handler
  -- in the exchange of a query always completes the query once it is answered: it does not wait
  -- for room in the pool, and does not panic on a nil pool or connection.
  pub OrderlyRun-returns : (u : System) × (step i answered t ≡ ok u)
  OrderlyRun-returns =
      let (q, taken) = answered_total in (put t i q, step-total i answered t h found taken)
