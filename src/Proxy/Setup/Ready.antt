-- ===== src/Proxy/Setup/Ready.antt =====
-- A proxy as it is set up, and what follows for the handlers of its clients.
use crunchy_proxy.Config.{Node, StringMap}
use crunchy_proxy.Go.{ok}
use crunchy_proxy.Prelude.{
  ℕ, zero, suc, ◌+◌, ◌≤◌, ◌<◌, ◌≡◌, refl, ap, ◌∙◌, sym, true, false, [], ◌∷◌, some, length,
  replicate, All, arith,
}
use crunchy_proxy.Proxy.Handler.{System, new_handler}
use crunchy_proxy.Proxy.Ownership.Runs.{OrderlyRun}
use crunchy_proxy.Proxy.Ownership.Safety.{IsUsing, counts_connection, OrderlyRun-exclusive}
use crunchy_proxy.Proxy.Ownership.Weights.{items_weight, pools_weight, handlers_weight}
use crunchy_proxy.Proxy.Routing.{Proxy}
use crunchy_proxy.Proxy.Setup.Built.{built, setup_nodes-built}
use crunchy_proxy.Proxy.Setup.Layout.{AllConnect, numbers, pools_of, positions, opened_after}
use crunchy_proxy.Proxy.Setup.{Environment, new_proxy}

-- Where every `Connect` gives a connection, the setup ends. Each node then has a pool of its name that
-- is full of connections of its own, numbered through in the order of the nodes, and the pools of the
-- masters wait in the one channel and the others in the other.
pub new_proxy-built :
    (env : Environment) (capacity : ℕ) (nodes : StringMap Node)
    → AllConnect env
    → new_proxy env capacity nodes
      ≡ ok (
          some (
            opened_after capacity 0 nodes,
            built
                (pools_of capacity 0 nodes)
                (positions true 0 nodes)
                (positions false 0 nodes)
                (length nodes)
                [],
          ))
unfolding new_proxy
new_proxy-built env capacity nodes all =
    setup_nodes-built env capacity (length nodes) [] all nodes 0 [] [] [] (omega arith)
      (omega arith)

-- How often connection `c` is among `n` numbers from `first` on: at most once, and within them.
abbrev IsOnce : ℕ → ℕ → ℕ → ℕ → Type 0
IsOnce count c first last = (count ≤ 1) × (c < first → count ≡ 0) × (last ≤ c → count ≡ 0)

numbers-IsOnce :
    (first n c : ℕ)
    → IsOnce (items_weight (counts_connection c 0) (numbers first n)) c first (first + n)
numbers-IsOnce first zero c = (omega arith, (λ h. refl), (λ h. refl))
numbers-IsOnce first (suc n) c =
    let (one, below, above) = numbers-IsOnce (suc first) n c in
    (grind arith, (λ h. grind arith), (λ h. grind arith))

pools_of-IsOnce :
    (capacity first c : ℕ) (nodes : StringMap Node)
    → (pools_weight (counts_connection c) (pools_of capacity first nodes) ≤ 1)
      × (c < first → pools_weight (counts_connection c) (pools_of capacity first nodes) ≡ 0)
pools_of-IsOnce capacity first c [] = (omega arith, (λ h. refl))
pools_of-IsOnce capacity first c ((name, node) ∷ nodes) =
    let (one, below, above) = numbers-IsOnce first capacity c in
    let (rest, later) = pools_of-IsOnce capacity (first + capacity) c nodes in
    (grind arith, (λ h. grind arith))

new_handlers-weight :
    (n c : ℕ) → handlers_weight (counts_connection c) (replicate n new_handler) ≡ 0
new_handlers-weight zero c = refl
new_handlers-weight (suc n) c = omega (arith, new_handlers-weight n c)

pub new_handlers-IsNew : (n : ℕ) → All (λ h. h ≡ new_handler) (replicate n new_handler)
new_handlers-IsNew zero = tt
new_handlers-IsNew (suc n) = (refl, new_handlers-IsNew n)

-- A proxy with `n` clients that have sent nothing yet.
abbrev pub started : Proxy → ℕ → System
started p n = record { proxy = p; handlers = replicate n new_handler }

-- Then each connection is at most once in the pools.
pub new_proxy-once :
    (env : Environment) (capacity : ℕ) (nodes : StringMap Node) {opened : ℕ} {p : Proxy} (c : ℕ)
    → AllConnect env
    → new_proxy env capacity nodes ≡ ok (some (opened, p))
    → pools_weight (counts_connection c) p.pools ≤ 1
new_proxy-once env capacity nodes {opened} {p} c all e =
    omega (arith, (pools_of-IsOnce capacity 0 c nodes).0, same)
  where
    got : {q : ℕ × Proxy} → ok (some (opened, p)) ≡ ok (some q) → p ≡ q.1
    got e = cc

    same :
        pools_weight (counts_connection c) p.pools
        ≡ pools_weight (counts_connection c) (pools_of capacity 0 nodes)
    same =
        ap (λ (p : Proxy). pools_weight (counts_connection c) p.pools)
          (got (sym e ∙ new_proxy-built env capacity nodes all))

-- On a proxy that was set up with every `Connect` giving a connection, and whose clients start
-- afresh, a connection that a client uses at any moment of an orderly execution is used by no
-- other client, and is in no pool.
pub new_proxy-exclusive :
    (env : Environment) (capacity : ℕ) (nodes : StringMap Node) {opened : ℕ} {p : Proxy} (n : ℕ)
    {t : System} (i c : ℕ)
    → AllConnect env
    → new_proxy env capacity nodes ≡ ok (some (opened, p))
    → OrderlyRun (started p n) t
    → IsUsing t i c
    → ((j : ℕ) → IsUsing t j c → j ≡ i) × (pools_weight (counts_connection c) t.proxy.pools ≡ 0)
new_proxy-exclusive env capacity nodes n i c all e r u =
    OrderlyRun-exclusive i c (new_handlers-IsNew n)
      (omega (arith, new_proxy-once env capacity nodes c all e, new_handlers-weight n c)) r u
