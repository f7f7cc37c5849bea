-- ===== src/Proxy/Setup/Owners.antt =====
-- Which node a connection of a proxy that was set up goes to.
use mathlib.Core.Option.{some-injective}
use crunchy_proxy.Config.{Node, StringMap}
use crunchy_proxy.Go.{Bytes}
use crunchy_proxy.Pool.{Pool}
use crunchy_proxy.Prelude.{
  ℕ, zero, suc, ◌+◌, ◌≤◌, ◌<◌, ◌≡◌, refl, ap, subst, true, false, List, [], ◌∷◌, some, get_elem?,
  All, ltb, lt→ltb, le→ltb, arith, if◌then◌else◌,
}
use crunchy_proxy.Proxy.Ownership.Origin.{OwnPools}
use crunchy_proxy.Proxy.Setup.Layout.{numbers, pools_of}

-- The position of the node that call `c` of `Connect` goes to: from the call `first` on there are
-- `capacity` calls for each node, in their order.
abbrev pub node_of : ℕ → ℕ → StringMap Node → ℕ → ℕ
node_of capacity first [] c = 0
node_of capacity first (node ∷ nodes) c =
    let rest = node_of capacity (first + capacity) nodes c in
    if ltb c (first + capacity) then 0 else suc rest

abbrev pub name_at : StringMap Node → ℕ → Bytes
name_at [] k = []
name_at ((name, node) ∷ nodes) zero = name
name_at ((name, node) ∷ nodes) (suc k) = name_at nodes k

All-map {ℓ κ μ} :
    {A : Type ℓ} (P : A → Type κ) (Q : A → Type μ) (xs : List A)
    → ((x : A) → P x → Q x)
    → All P xs
    → All Q xs
All-map P Q [] f a = tt
All-map P Q (x ∷ xs) f a = (f x a.0, All-map P Q xs f a.1)

numbers-within : (first n : ℕ) → All (λ c. (first ≤ c) × (c < first + n)) (numbers first n)
numbers-within first zero = tt
numbers-within first (suc n) = (
  (omega arith, omega arith),
  All-map (λ c. (suc first ≤ c) × (c < suc first + n)) (λ c. (first ≤ c) × (c < first + suc n))
      (numbers (suc first) n) (λ c h. (omega (arith, h.0), omega (arith, h.1)))
      (numbers-within (suc first) n),
)

-- The connections of the pool at `k` are those that were made to the node at `k`, which names it.
abbrev IsOf : ℕ → ℕ → StringMap Node → ℕ → Pool → Type 0
IsOf capacity first nodes k pool =
    All (λ c. (first ≤ c) × (node_of capacity first nodes c ≡ k)) pool.connections.items
    × (pool.name ≡ name_at nodes k)

pools_of-IsOf :
    (capacity first : ℕ) (nodes : StringMap Node) (k : ℕ) (pool : Pool)
    → get_elem? (pools_of capacity first nodes) k ≡ some pool
    → IsOf capacity first nodes k pool
pools_of-IsOf capacity first [] k pool e = cc
pools_of-IsOf capacity first ((name, node) ∷ nodes) zero pool e =
    subst (IsOf capacity first ((name, node) ∷ nodes) zero) (some-injective _ _ e) (
      All-map (λ c. (first ≤ c) × (c < first + capacity))
          (λ c. (first ≤ c) × (node_of capacity first ((name, node) ∷ nodes) c ≡ 0))
          (numbers first capacity) (λ c h. (h.0, here c (lt→ltb c (first + capacity) h.1)))
          (numbers-within first capacity),
      refl,
    )
  where
    here :
        (c : ℕ)
        → ltb c (first + capacity) ≡ true
        → node_of capacity first ((name, node) ∷ nodes) c ≡ 0
    here c e = rw e refl
pools_of-IsOf capacity first ((name, node) ∷ nodes) (suc k) pool e =
    let (all, name_is) = pools_of-IsOf capacity (first + capacity) nodes k pool e in
    (
      All-map (λ c. (first + capacity ≤ c) × (node_of capacity (first + capacity) nodes c ≡ k))
          (λ c. (first ≤ c) × (node_of capacity first ((name, node) ∷ nodes) c ≡ suc k))
          pool.connections.items
          (λ c h. (omega (arith, h.0), there c (le→ltb (first + capacity) c h.0) h.1)) all,
      name_is,
    )
  where
    there :
        (c : ℕ)
        → ltb c (first + capacity) ≡ false
        → node_of capacity (first + capacity) nodes c ≡ k
        → node_of capacity first ((name, node) ∷ nodes) c ≡ suc k
    there c e q = rw e (ap suc q)

pub pools_of-OwnPools :
    (capacity first : ℕ) (nodes : StringMap Node)
    → OwnPools (node_of capacity first nodes) (name_at nodes) (pools_of capacity first nodes)
pools_of-OwnPools capacity first nodes k pool e =
    let (all, name) = pools_of-IsOf capacity first nodes k pool e in
    (
      All-map (λ c. (first ≤ c) × (node_of capacity first nodes c ≡ k))
          (λ c. node_of capacity first nodes c ≡ k) pool.connections.items (λ c h. h.1) all,
      name,
    )
