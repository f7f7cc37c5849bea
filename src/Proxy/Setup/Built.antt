-- ===== src/Proxy/Setup/Built.antt =====
-- The pools and the channels, node by node.
use crunchy_proxy.Config.{Node, StringMap, node_role_master}
use crunchy_proxy.Go.Channels.{Channel, make}
use crunchy_proxy.Go.Channels
use crunchy_proxy.Go.{Bytes, Outcome, ok, ◌>>=◌, equal}
use crunchy_proxy.Pool.{Pool}
use crunchy_proxy.Pool
use crunchy_proxy.Prelude.{
  ℕ, suc, ◌+◌, ◌≤◌, ◌<◌, ◌≡◌, refl, ap, ◌∙◌, inl, inr, Bool, true, false, List, [], ◌∷◌, ◌++◌,
  append_assoc, append-nil, Option, some, length, length-append, lt→ltb, Bool-cases, arith,
  if◌then◌else◌,
}
use crunchy_proxy.Proxy.Routing.{Proxy, Stats}
use crunchy_proxy.Proxy.Setup.{Environment, Progress, fill_pool, add_pool, or_exit, setup_nodes}
use crunchy_proxy.Proxy.Setup.Layout.{
  numbers, pool_of, pools_of, positions, opened_after, AllConnect, fill_pool-filling,
}

-- The proxy in the course of the setup
abbrev pub built : List Pool → List ℕ → List ℕ → ℕ → Stats → Proxy
built pools masters others room stats = record {
  pools = pools;
  write_pools = record { items = masters; cap = room };
  read_pools = record { items = others; cap = room };
  stats = stats;
}

-- The channels behind a node.
abbrev queued : Bool → Node → ℕ → List ℕ → List ℕ
queued master node k ks =
    if equal node.role node_role_master
    then (if master then ks ++ k ∷ [] else ks)
    else (if master then ks else ks ++ k ∷ [])

add_pool-built :
    (name : Bytes) (node : Node) (capacity room : ℕ) (ps : List Pool) (ms os : List ℕ)
    (stats : Stats)
    → length ms < room
    → length os < room
    → add_pool name node capacity (built ps ms os room stats)
      ≡ ok (
          built
            (ps ++ pool_of name capacity [] ∷ [])
            (queued true node (length ps) ms)
            (queued false node (length ps) os)
            room
            stats)
unfolding add_pool Pool.new_pool Channels.send
add_pool-built name node capacity room ps ms os stats hm ho =
    elim (Bool-cases (equal node.role node_role_master)) [
      | inl e ↦ rw (e, lt→ltb (length ms) room hm) refl
      | inr e ↦ rw (e, lt→ltb (length os) room ho) refl
    ]

queued-positions :
    (b : Bool) (node : Node) (name : Bytes) (k : ℕ) (ks : List ℕ) (nodes : StringMap Node)
    → queued b node k ks ++ positions b (suc k) nodes ≡ ks ++ positions b k ((name, node) ∷ nodes)
queued-positions true node name k ks nodes = elim (Bool-cases (equal node.role node_role_master)) [
  | inl e ↦ rw e (append_assoc ks (k ∷ []) _)
  | inr e ↦ rw e refl
]
queued-positions false node name k ks nodes = elim (Bool-cases (equal node.role node_role_master)) [
  | inl e ↦ rw e refl
  | inr e ↦ rw e (append_assoc ks (k ∷ []) _)
]

length-queued :
    (b : Bool) (node : Node) (k : ℕ) (ks : List ℕ) → length (queued b node k ks) ≤ suc (length ks)
length-queued b node k ks = ground (arith, length-append ks (k ∷ []))

-- The progress behind the nodes `nodes`.
abbrev progressed :
    ℕ → ℕ → ℕ → Stats → StringMap Node → List Pool → List ℕ → List ℕ → Outcome (Option Progress)
progressed capacity opened room stats nodes ps ms os =
    ok (some (opened_after capacity opened nodes, built ps ms os room stats))

pub setup_nodes-built :
    (env : Environment) (capacity room : ℕ) (stats : Stats) (all : AllConnect env)
    (nodes : StringMap Node) (opened : ℕ) (ps : List Pool) (ms os : List ℕ)
    → length ms + length nodes ≤ room
    → length os + length nodes ≤ room
    → setup_nodes env capacity nodes (opened, built ps ms os room stats)
      ≡ progressed capacity opened room stats nodes
          (ps ++ pools_of capacity opened nodes)
          (ms ++ positions true (length ps) nodes)
          (os ++ positions false (length ps) nodes)
unfolding setup_nodes
setup_nodes-built env capacity room stats all [] opened ps ms os hm ho =
    rw (append-nil ps, append-nil ms, append-nil os) refl
setup_nodes-built env capacity room stats all ((name, node) ∷ nodes) opened ps ms os hm ho =
    ap
      (λ o. o >>= λ p'.
        fill_pool env node.host_port (length ps) capacity opened p'
        >>= or_exit (setup_nodes env capacity nodes))
      (add_pool-built name node capacity room ps ms os stats (omega arith) (omega arith))
    ∙ ap (λ o. o >>= or_exit (setup_nodes env capacity nodes))
        (fill_pool-filling env all node.host_port name capacity ps (built ps ms' os' room stats)
          capacity opened [] (omega arith))
    ∙ setup_nodes-built env capacity room stats all nodes (opened + capacity) ps' ms' os'
        (omega (arith, length-queued true node (length ps) ms))
        (omega (arith, length-queued false node (length ps) os))
    ∙ ap
        (λ k.
          progressed capacity (opened + capacity) room stats nodes
            (ps' ++ pools_of capacity (opened + capacity) nodes) (ms' ++ positions true k nodes)
            (os' ++ positions false k nodes))
        (omega (arith, length-append ps (filled ∷ [])))
    ∙ ap
        (λ ps.
          progressed capacity (opened + capacity) room stats nodes ps
            (ms' ++ positions true (suc (length ps₀)) nodes)
            (os' ++ positions false (suc (length ps₀)) nodes))
        (append_assoc ps (filled ∷ []) (pools_of capacity (opened + capacity) nodes))
    ∙ rw
        (
          queued-positions true node name (length ps) ms nodes,
          queued-positions false node name (length ps) os nodes,
        )
        refl
  where
    ms' : List ℕ
    ms' = queued true node (length ps) ms

    os' : List ℕ
    os' = queued false node (length ps) os

    ps₀ : List Pool
    ps₀ = ps

    filled : Pool
    filled = pool_of name capacity (numbers opened capacity)

    ps' : List Pool
    ps' = ps ++ filled ∷ []
