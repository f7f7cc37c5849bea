-- ===== src/Proxy/Ownership/Weights.antt =====
-- Sums over the places where a connection can be. A weight gives each pair of a pool and a
-- connection a number: counting one connection, one pair, or the connections of one pool are
-- weights.
use crunchy_proxy.Go.{ok}
use crunchy_proxy.Pool.{Pool}
use crunchy_proxy.Prelude.{
  ℕ, zero, suc, ◌+◌, ◌≡◌, ap, Bool, List, [], ◌∷◌, ◌++◌, Option, some, arith, get_elem?, set,
  if◌then◌else◌,
}
use crunchy_proxy.Proxy.Handler.{Handler, Phase, receiving, took_pool, took_backend, serving, gone}
use crunchy_proxy.Proxy.Routing.Moves.{next_backend-Takes, return_backend-Gives}
use crunchy_proxy.Proxy.Routing.{Proxy, next_backend, return_backend}

abbrev pub Weight : Type 0
Weight = ℕ → ℕ → ℕ

abbrev pub items_weight : (ℕ → ℕ) → List ℕ → ℕ
items_weight f [] = 0
items_weight f (c ∷ cs) = f c + items_weight f cs

abbrev pub pools_weight : Weight → List Pool → ℕ
pools_weight w [] = 0
pools_weight w (p ∷ ps) = items_weight (w 0) p.connections.items + pools_weight (λ k. w (suc k)) ps

abbrev pub pair_weight : Weight → Option ℕ → Option ℕ → ℕ
pair_weight w (some k) (some c) = w k c
pair_weight w _ _ = 0

-- The connection that a handler has taken out of its pool: from `Next` to `Return`, and between the
-- queries of a statement block.
abbrev pub phase_weight : Phase → Bool → ℕ → ℕ
phase_weight receiving block n = if block then n else 0
phase_weight took_pool block n = 0
phase_weight took_backend block n = n
phase_weight serving block n = n
phase_weight gone block n = 0

abbrev pub held_weight : Weight → Handler → ℕ
held_weight w h = phase_weight h.phase h.statement_block (pair_weight w h.cp h.backend)

abbrev pub handlers_weight : Weight → List Handler → ℕ
handlers_weight w [] = 0
handlers_weight w (h ∷ hs) = held_weight w h + handlers_weight w hs

items_weight-append :
    (f : ℕ → ℕ) (xs ys : List ℕ) → items_weight f (xs ++ ys) ≡ items_weight f xs + items_weight f ys
items_weight-append f [] ys = omega arith
items_weight-append f (x ∷ xs) ys = omega (arith, items_weight-append f xs ys)

pools_weight-set :
    (w : Weight) (ps : List Pool) (k : ℕ) (p q : Pool)
    → get_elem? ps k ≡ some p
    → pools_weight w (set ps k q) + items_weight (w k) p.connections.items
      ≡ pools_weight w ps + items_weight (w k) q.connections.items
pools_weight-set w [] k p q e = cc
pools_weight-set w (x ∷ ps) zero p q e = ground arith
pools_weight-set w (x ∷ ps) (suc k) p q e =
    omega (arith, pools_weight-set (λ k. w (suc k)) ps k p q e)

pub handlers_weight-set :
    (w : Weight) (hs : List Handler) (i : ℕ) (h h' : Handler)
    → get_elem? hs i ≡ some h
    → handlers_weight w (set hs i h') + held_weight w h ≡ handlers_weight w hs + held_weight w h'
handlers_weight-set w [] i h h' e = cc
handlers_weight-set w (x ∷ hs) zero h h' e = ground arith
handlers_weight-set w (x ∷ hs) (suc i) h h' e = omega (arith, handlers_weight-set w hs i h h' e)

pub next_backend-weight :
    (w : Weight) (cp : ℕ) (p : Proxy) {r : ℕ × Proxy}
    → next_backend cp p ≡ ok r
    → pools_weight w r.1.pools + w cp r.0 ≡ pools_weight w p.pools
next_backend-weight w cp p e =
    let t = next_backend-Takes cp p e in
    omega (
      arith,
      pools_weight-set w p.pools cp t.pool t.left t.found,
      ap (λ (q : Proxy). pools_weight w q.pools) t.result,
      ap (items_weight (w cp)) t.taken.items,
    )

pub return_backend-weight :
    (w : Weight) (cp backend : ℕ) (p : Proxy) {p' : Proxy}
    → return_backend cp backend p ≡ ok p'
    → pools_weight w p'.pools ≡ pools_weight w p.pools + w cp backend
return_backend-weight w cp backend p e =
    let t = return_backend-Gives cp backend p e in
    omega (
      arith,
      pools_weight-set w p.pools cp t.pool t.filled t.found,
      ap (λ (q : Proxy). pools_weight w q.pools) t.result,
      ap (items_weight (w cp)) t.given.items,
      items_weight-append (w cp) t.pool.connections.items (backend ∷ []),
    )
