-- ===== src/Proxy/Ownership/Safety.antt =====
-- No connection is lost, copied or moved, and no two handlers use the same one.
use native.Mathlib.Decide.{ℕ_discrete}
use crunchy_proxy.Prelude.{
  ℕ, zero, suc, ◌+◌, ◌≤◌, ◌≡◌, ◌≢◌, ◌⊎◌, true, refl, ap, List, [], ◌∷◌, some, arith, get_elem?, All,
  ◌==◌, ◌&&◌, if◌then◌else◌, All-get_elem?,
}
use crunchy_proxy.Proxy.Handler.{Handler, System, new_handler, receiving, serving}
use crunchy_proxy.Proxy.Ownership.Runs.{
  total_weight, OrderlyRun, OrderlyRun-Inv, OrderlyRun-total_weight,
}
use crunchy_proxy.Proxy.Ownership.Steps.{Inv}
use crunchy_proxy.Proxy.Ownership.Weights.{Weight, pools_weight, held_weight, handlers_weight}

-- No handler has read a message of its session yet.
abbrev pub IsStart : System → Type 0
IsStart s = All (λ h. h ≡ new_handler) s.handlers

pub IsStart-Inv : (hs : List Handler) → All (λ h. h ≡ new_handler) hs → All Inv hs
IsStart-Inv [] a = tt
IsStart-Inv (h ∷ hs) a = (ground arith, IsStart-Inv hs a.1)

-- Counts connection `c` where it belongs to pool `k`.
abbrev pub counts_pair : ℕ → ℕ → Weight
counts_pair k c k' c' = if k' == k && c' == c then 1 else 0

-- Counts connection `c`, whatever its pool.
abbrev pub counts_connection : ℕ → Weight
counts_connection c k' c' = if c' == c then 1 else 0

-- At every moment of an orderly execution, each connection of each pool lies in that pool or is held
-- by a handler that will return it there, as often as it was in the pool at the start.
pub OrderlyRun-conserves :
    {s t : System} (k c : ℕ)
    → IsStart s
    → OrderlyRun s t
    → total_weight (counts_pair k c) t ≡ total_weight (counts_pair k c) s
OrderlyRun-conserves {s} k c a r =
    OrderlyRun-total_weight (counts_pair k c) (IsStart-Inv s.handlers a) r

-- Handler `i` is exchanging the messages of a query with connection `c`, or has a statement block open
-- on it.
pub record IsUsing (s : System) (i c : ℕ) : Type 0 where
  pub handler : Handler
  pub found : get_elem? s.handlers i ≡ some handler
  pub holds :
      (handler.phase ≡ serving) ⊎ ((handler.phase ≡ receiving) × (handler.statement_block ≡ true))
  pub uses : handler.backend ≡ some c

pub held-le :
    (w : Weight) (hs : List Handler) (i : ℕ) {h : Handler}
    → get_elem? hs i ≡ some h
    → held_weight w h ≤ handlers_weight w hs
held-le w [] i e = cc
held-le w (x ∷ hs) zero e = ground arith
held-le w (x ∷ hs) (suc i) e = omega (arith, held-le w hs i e)

held_twice :
    (w : Weight) (hs : List Handler) (i j : ℕ) {h h' : Handler}
    → i ≢ j
    → get_elem? hs i ≡ some h
    → get_elem? hs j ≡ some h'
    → held_weight w h + held_weight w h' ≤ handlers_weight w hs
held_twice w [] i j n e e' = cc
held_twice w (x ∷ hs) zero zero n e e' = absurd (n refl)
held_twice w (x ∷ hs) zero (suc j) n e e' = ground (arith, held-le w hs j e')
held_twice w (x ∷ hs) (suc i) zero n e e' = ground (arith, held-le w hs i e)
held_twice w (x ∷ hs) (suc i) (suc j) n e e' =
    omega (arith, held_twice w hs i j (λ q. n (ap suc q)) e e')

pub IsUsing-weight :
    (s : System) (i c : ℕ)
    → All Inv s.handlers
    → (u : IsUsing s i c) → held_weight (counts_connection c) u.handler ≡ 1
IsUsing-weight s i c v u = ground (arith, All-get_elem? Inv s.handlers i v u.found)

-- A state with a connection at most once in it, in the pools and with the handlers together.
pub once-exclusive :
    {t : System} (i c : ℕ)
    → All Inv t.handlers
    → total_weight (counts_connection c) t ≤ 1
    → IsUsing t i c
    → ((j : ℕ) → IsUsing t j c → j ≡ i) × (pools_weight (counts_connection c) t.proxy.pools ≡ 0)
once-exclusive {t} i c v once u = (alone, omega (arith, once, mine, held-le w t.handlers i u.found))
  where
    w : Weight
    w = counts_connection c

    mine : held_weight w u.handler ≡ 1
    mine = IsUsing-weight t i c v u

    alone : (j : ℕ) → IsUsing t j c → j ≡ i
    alone j u' = elim (ℕ_discrete j i) [
      | yes e ↦ e
      | no n ↦ absurd (
          omega (
            arith,
            once,
            mine,
            IsUsing-weight t j c v u',
            held_twice w t.handlers j i n u'.found u.found,
          ))
    ]

-- If connection `c` is in the pools at most once at the start, then at no moment of an orderly
-- execution do two handlers exchange messages with it or have statement blocks open on it, and while
-- one does it is in no pool.
pub OrderlyRun-exclusive :
    {s t : System} (i c : ℕ)
    → IsStart s
    → total_weight (counts_connection c) s ≤ 1
    → OrderlyRun s t
    → IsUsing t i c
    → ((j : ℕ) → IsUsing t j c → j ≡ i) × (pools_weight (counts_connection c) t.proxy.pools ≡ 0)
OrderlyRun-exclusive {s} {t} i c a once r u =
    once-exclusive i c (OrderlyRun-Inv (IsStart-Inv s.handlers a) r)
      (omega
        (arith, once, OrderlyRun-total_weight (counts_connection c) (IsStart-Inv s.handlers a) r))
      u
