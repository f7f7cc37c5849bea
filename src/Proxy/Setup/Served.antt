-- ===== src/Proxy/Setup/Served.antt =====
-- How the queries are served on a proxy as it is set up.
use crunchy_proxy.Config.{Node, StringMap, node_role_master}
use crunchy_proxy.Go.{ok, equal}
use crunchy_proxy.Prelude.{
  ℕ, zero, suc, ◌+◌, ◌≡◌, refl, ap, ◌∙◌, subst, sym, inl, inr, Bool, true, false, not, replicate,
  All-get_elem?, List, [], ◌∷◌, some, length, get_elem?, Bool-cases, arith,
}
use crunchy_proxy.Proxy.Handler.{
  System, Handler, new_handler, Action, answered, serving, took_backend, step, run,
}
use crunchy_proxy.Proxy.Ownership.Masters.{run-routes}
use crunchy_proxy.Proxy.Ownership.Sorted.{AreAll, IsSorted}
use crunchy_proxy.Proxy.Ownership.Origin.{OwnPools, OriginInv, run-HaveOrigin, IsStart-OriginInv}
use crunchy_proxy.Proxy.Ownership.Reads.{last_read, IsStart-last_read}
use crunchy_proxy.Proxy.Setup.Owners.{node_of, name_at, pools_of-OwnPools}
use crunchy_proxy.Proxy.Ownership.Returns.{WithinCapacity, OrderlyRun-returns}
use crunchy_proxy.Proxy.Ownership.Runs.{OrderlyRun}
use crunchy_proxy.Proxy.Routing.{Proxy}
use crunchy_proxy.Proxy.Setup.Built.{built}
use crunchy_proxy.Proxy.Setup.Layout.{AllConnect, numbers, pools_of, positions}
use crunchy_proxy.Proxy.Setup.Ready.{new_proxy-built, new_handlers-IsNew, started}
use crunchy_proxy.Proxy.Setup.{Environment, new_proxy}

-- Is node `k` a master?
abbrev pub master_at : StringMap Node → ℕ → Bool
master_at [] k = false
master_at ((name, node) ∷ nodes) zero = equal node.role node_role_master
master_at ((name, node) ∷ nodes) (suc k) = master_at nodes k

positions-AreAll :
    (f : ℕ → Bool) (b : Bool) (k : ℕ) (nodes : StringMap Node)
    → ((j : ℕ) → f (k + j) ≡ master_at nodes j)
    → AreAll f b (positions b k nodes)
positions-AreAll f b k [] h = tt
positions-AreAll f true k ((name, node) ∷ nodes) h =
    let rest =
      positions-AreAll f true (suc k) nodes
        (λ j. subst (λ i. f i ≡ master_at nodes j) (omega arith) (h (suc j))) in
    elim (Bool-cases (equal node.role node_role_master)) [
      | inl e ↦ rw e ((subst (λ i. f i ≡ true) (omega arith) (h 0 ∙ e)), rest)
      | inr e ↦ rw e rest
    ]
positions-AreAll f false k ((name, node) ∷ nodes) h =
    let rest =
      positions-AreAll f false (suc k) nodes
        (λ j. subst (λ i. f i ≡ master_at nodes j) (omega arith) (h (suc j))) in
    elim (Bool-cases (equal node.role node_role_master)) [
      | inl e ↦ rw e rest
      | inr e ↦ rw e ((subst (λ i. f i ≡ false) (omega arith) (h 0 ∙ e)), rest)
    ]

length-numbers : (first n : ℕ) → length (numbers first n) ≡ n
length-numbers first zero = refl
length-numbers first (suc n) = ap suc (length-numbers (suc first) n)

pools_of-WithinCapacity :
    (capacity first : ℕ) (nodes : StringMap Node) → WithinCapacity (pools_of capacity first nodes)
pools_of-WithinCapacity capacity first [] = tt
pools_of-WithinCapacity capacity first ((name, node) ∷ nodes) = (
  omega (arith, length-numbers first capacity),
  pools_of-WithinCapacity capacity (first + capacity) nodes,
)

some-pair : {r q : ℕ × Proxy} → ok (some r) ≡ ok (some q) → r.1 ≡ q.1
some-pair e = cc

module _ (env : Environment) (capacity : ℕ) (nodes : StringMap Node) {opened : ℕ} {p : Proxy}
    (all : AllConnect env) (e : new_proxy env capacity nodes ≡ ok (some (opened, p))) where
  same :
      built
        (pools_of capacity 0 nodes)
        (positions true 0 nodes)
        (positions false 0 nodes)
        (length nodes)
        []
      ≡ p
  same = some-pair (sym (new_proxy-built env capacity nodes all) ∙ e)

  -- On a proxy that was set up with every `Connect` giving a connection: whatever the clients send and
  -- in whatever order the handlers run, a handler that has fetched a connection for a query has one
  -- that `Connect` made to a master node if the last query that its client sent has no `read`
  -- annotation, and one to another node if it has one.
  pub new_proxy-routes :
      (n : ℕ) (schedule : List (ℕ × Action)) (i : ℕ) {t : System} {h : Handler}
      → run schedule (started p n) ≡ ok t
      → get_elem? t.handlers i ≡ some h
      → h.phase ≡ took_backend
      → (c : ℕ) × (h.backend ≡ some c)
        × (master_at nodes (node_of capacity 0 nodes c) ≡ not (last_read i false schedule))
  new_proxy-routes n schedule i {t} {h} r found f =
      let routed =
        run-routes (master_at nodes) schedule (started p n) i (new_handlers-IsNew n) sorted r found
          f in
      let (own, v) =
        run-HaveOrigin (node_of capacity 0 nodes) (name_at nodes) schedule (started p n)
          (
            subst (λ (p : Proxy). OwnPools (node_of capacity 0 nodes) (name_at nodes) p.pools) same
                (pools_of-OwnPools capacity 0 nodes),
            IsStart-OriginInv (node_of capacity 0 nodes) (name_at nodes) (replicate n new_handler)
                (new_handlers-IsNew n),
          )
          r in
      let (k, c, (pool, backend, owns)) : OriginInv (node_of capacity 0 nodes) (name_at nodes)
          took_backend h =
        rw f at (
          All-get_elem? (λ h. OriginInv (node_of capacity 0 nodes) (name_at nodes) h.phase h)
            t.handlers i v found) in
      let to_pool : master_at nodes k ≡ not h.read = rw pool at routed in
      (
        c,
        backend,
        ap (master_at nodes) owns
            ∙ to_pool
            ∙ ap not (IsStart-last_read schedule i (started p n) (new_handlers-IsNew n) r found),
      )
    where
      sorted : IsSorted (master_at nodes) p
      sorted = subst (IsSorted (master_at nodes)) same (
        positions-AreAll (master_at nodes) true 0 nodes (λ j. ap (master_at nodes) (omega arith)),
        positions-AreAll (master_at nodes) false 0 nodes (λ j. ap (master_at nodes) (omega arith)),
      )

  -- On a proxy that was set up with every `Connect` giving a connection, a handler in the exchange of a
  -- query, at any moment of an orderly execution, always completes the query once it is answered.
  pub new_proxy-returns :
      (n i : ℕ) {t : System} {h : Handler}
      → OrderlyRun (started p n) t
      → get_elem? t.handlers i ≡ some h
      → h.phase ≡ serving
      → (u : System) × (step i answered t ≡ ok u)
  new_proxy-returns n i r found f =
      OrderlyRun-returns i (new_handlers-IsNew n)
        (subst (λ (p : Proxy). WithinCapacity p.pools) same
          (pools_of-WithinCapacity capacity 0 nodes))
        r found f
