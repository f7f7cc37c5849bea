-- ===== src/Proxy/Setup/Needed.antt =====
-- What a setup that gives a proxy has needed.
use crunchy_proxy.Config.{Node, StringMap}
use crunchy_proxy.Connect.Dial.{Dialed, refused, connected, exited}
use crunchy_proxy.Connect.{Conn}
use crunchy_proxy.Go.{Bytes, Outcome, ok, ◌>>=◌, >>=-eq-ok}
use crunchy_proxy.Pool
use crunchy_proxy.Prelude.{
  ℕ, zero, suc, ◌+◌, ◌*◌, ◌≡◌, refl, ap, subst, ◌∙◌, [], ◌∷◌, Option, none, some, length, arith,
}
use crunchy_proxy.Proxy.Routing.{Proxy, deref, store}
use crunchy_proxy.Proxy.Setup.{
  Environment, Progress, log_in, add_connection, fill_pool, add_pool, or_exit, setup_nodes,
  new_proxy,
}

-- The calls of `Connect` from `first` on, `n` of them, give connections to the host.
abbrev pub Connects : Environment → Bytes → ℕ → ℕ → Type 0
Connects env host first zero = Unit {0}
Connects env host first (suc n) =
    ((c : Conn) × (env.connect first host ≡ ok (connected c))) × Connects env host (suc first) n

-- So do the calls for all nodes, in their order.
abbrev pub AllConnects : Environment → ℕ → ℕ → StringMap Node → Type 0
AllConnects env capacity first [] = Unit {0}
AllConnects env capacity first ((name, node) ∷ nodes) =
    Connects env node.host_port first capacity × AllConnects env capacity (first + capacity) nodes

log_in-connected :
    (env : Environment) (d : Dialed) {c : Conn}
    → log_in env d ≡ ok (some c)
    → (c' : Conn) × (d ≡ connected c')
unfolding log_in
log_in-connected env (refused err) e = cc
log_in-connected env exited e = cc
log_in-connected env (connected c') e = (c', refl)

add_connection-some :
    (again : ℕ → Proxy → Outcome (Option Progress)) (cp opened : ℕ) (p : Proxy) (o : Option Conn)
    {r : Progress}
    → add_connection again cp opened p o ≡ ok (some r)
    → (c : Conn) × (p' : Proxy) × (o ≡ some c) × (again (suc opened) p' ≡ ok (some r))
unfolding add_connection
add_connection-some again cp opened p none e = cc
add_connection-some again cp opened p (some c) e =
    let (pool, found, rest) =
      >>=-eq-ok (deref (some cp) p)
        (λ pool. Pool.add pool opened >>= λ pool. again (suc opened) (store cp pool p)) e in
    let (pool', added, last) =
      >>=-eq-ok (Pool.add pool opened) (λ pool. again (suc opened) (store cp pool p)) rest in
    (c, store cp pool' p, refl, last)

module _ (env : Environment) (host : Bytes) (cp : ℕ) where
  fill_pool-Connects :
      (n opened : ℕ) (p : Proxy) {r : Progress}
      → fill_pool env host cp n opened p ≡ ok (some r)
      → (r.0 ≡ opened + n) × Connects env host opened n
  unfolding fill_pool
  fill_pool-Connects zero opened p e = (ground arith, tt)
  fill_pool-Connects (suc n) opened p e =
      let (o, joined, rest) =
        >>=-eq-ok (env.connect opened host >>= log_in env)
          (add_connection (fill_pool env host cp n) cp opened p) e in
      let (d, dialed, logged) = >>=-eq-ok (env.connect opened host) (log_in env) joined in
      let (c, p', same, last) = add_connection-some (fill_pool env host cp n) cp opened p o rest in
      let (c', q) = log_in-connected env d (logged ∙ ap ok same) in
      let (count, others) = fill_pool-Connects n (suc opened) p' last in
      (omega (arith, count), ((c', dialed ∙ ap ok q), others))

or_exit-some :
    (again : Progress → Outcome (Option Progress)) (o : Option Progress) {r : Progress}
    → or_exit again o ≡ ok (some r)
    → (q : Progress) × (o ≡ some q) × (again q ≡ ok (some r))
or_exit-some again none e = cc
or_exit-some again (some q) e = (q, refl, e)

setup_nodes-Connects :
    (env : Environment) (capacity : ℕ) (nodes : StringMap Node) (opened : ℕ) (p : Proxy)
    {r : Progress}
    → setup_nodes env capacity nodes (opened, p) ≡ ok (some r)
    → (r.0 ≡ opened + capacity * length nodes) × AllConnects env capacity opened nodes
unfolding setup_nodes
setup_nodes-Connects env capacity [] opened p e = (ground arith, tt)
setup_nodes-Connects env capacity ((name, node) ∷ nodes) opened p {r} e =
    let (p', added, rest) =
      >>=-eq-ok (add_pool name node capacity p)
        (λ p'.
          fill_pool env node.host_port (length p.pools) capacity opened p'
          >>= or_exit (setup_nodes env capacity nodes))
        e in
    let (o, filled, left) =
      >>=-eq-ok (fill_pool env node.host_port (length p.pools) capacity opened p')
        (or_exit (setup_nodes env capacity nodes)) rest in
    let (q, same, last) = or_exit-some (setup_nodes env capacity nodes) o left in
    let (count, here) =
      fill_pool-Connects env node.host_port (length p.pools) capacity opened p'
        (filled ∙ ap ok same) in
    let (total, others) = setup_nodes-Connects env capacity nodes q.0 q.1 last in
    (
      grind (arith, total, count),
      (here, subst (λ k. AllConnects env capacity k nodes) count others),
    )

-- A proxy is only set up when every connection of every pool was made: if one call of `Connect` gives
-- an error, ends the process or panics, then no proxy comes out. When one does, there were as many
-- calls as the capacity of a pool times the number of nodes.
pub new_proxy-AllConnects :
    (env : Environment) (capacity : ℕ) (nodes : StringMap Node) {r : Progress}
    → new_proxy env capacity nodes ≡ ok (some r)
    → (r.0 ≡ capacity * length nodes) × AllConnects env capacity 0 nodes
unfolding new_proxy
new_proxy-AllConnects env capacity nodes e =
    let (count, all) = setup_nodes-Connects env capacity nodes 0 _ e in (grind (arith, count), all)
