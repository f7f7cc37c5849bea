-- ===== src/Server/Health.antt =====
-- What a round of the health check leaves.
pub mod Rounds
use mathlib.Core.Option.{some-injective}
use crunchy_proxy.Config.{Node, StringMap, Credentials, HealthCheckConfig}
use crunchy_proxy.Connect.Validate.Startup.{equal-false}
use crunchy_proxy.Go.{Bytes, ok, ◌>>=◌, equal, equal_iff}
use crunchy_proxy.Prelude.{
  ℕ, zero, suc, ◌+◌, ◌≡◌, ◌≢◌, refl, sym, subst, ap, ◌∙◌, inl, inr, Bool, true, false, not, [], ◌∷◌,
  some, All, get_elem?, arith, Bool-cases, if◌then◌else◌,
}
use crunchy_proxy.Server.{
  AdminServer, Database, connection_string, set_health, get_health, check_node, check_nodes,
}

equal_refl : (s : Bytes) → equal s s ≡ true
equal_refl s = (equal_iff s s).1 refl

get_health-set_health :
    (name : Bytes) (health : Bool) (h : StringMap Bool)
    → get_health name (set_health name health h) ≡ some health
unfolding get_health set_health
get_health-set_health name health [] = rw (equal_refl name)
get_health-set_health name health ((key, old) ∷ rest) = elim (Bool-cases (equal key name)) [
  | inl e ↦ rw (e, set_health) (rw e refl)
  | inr n ↦ rw (n, set_health) (rw n (get_health-set_health name health rest))
]

get_health-set_health_other :
    (name other : Bytes) (health : Bool) (h : StringMap Bool)
    → other ≢ name
    → get_health name (set_health other health h) ≡ get_health name h
unfolding get_health set_health
get_health-set_health_other name other health [] d = rw (equal-false other name d)
get_health-set_health_other name other health ((key, old) ∷ rest) d =
    elim (Bool-cases (equal key other)) [
      | inl e ↦
          rw (e, set_health)
            (rw
              (subst (λ k. equal k name ≡ false) (sym ((equal_iff key other).0 e))
                (equal-false other name d))
              refl)
      | inr n ↦
          rw (n, set_health)
            (ap (λ o. if equal key name then some old else o)
              (get_health-set_health_other name other health rest d))
    ]

pair : {p q : Bytes × Node} → p ≡ q → (p.0 ≡ q.0) × (p.1 ≡ q.1)
pair e = (ap (λ p. p.0) e, ap (λ p. p.1) e)

module _ (db : Database) (creds : Credentials) (hc : HealthCheckConfig) where
  -- Does the check of the node fail?
  abbrev pub fails : Node → Bool
  fails node = db.query_fails (connection_string db creds node) hc.query

  -- Every node's connection can be opened.
  abbrev pub AllOpen : StringMap Node → Type 0
  AllOpen = All (λ p. db.open_fails (connection_string db creds p.1) ≡ false)

  -- The names are all different, as the keys of a Go map are.
  abbrev pub AreDistinct : StringMap Node → Type 0
  AreDistinct [] = Unit
  AreDistinct ((name, node) ∷ nodes) = All (λ p. name ≢ p.0) nodes × AreDistinct nodes

  -- How many of the checks fail.
  abbrev pub failures : StringMap Node → ℕ
  failures [] = 0
  failures ((name, node) ∷ nodes) = if fails node then suc (failures nodes) else failures nodes

  -- The server behind the check of one node.
  abbrev checked : Bytes → Node → AdminServer → AdminServer
  checked name node s = record {
    node_health = set_health name (not (fails node)) s.node_health;
    unclosed = if fails node then suc s.unclosed else s.unclosed;
  }

  check_node-checked :
      (name : Bytes) (node : Node) (s : AdminServer)
      → db.open_fails (connection_string db creds node) ≡ false
      → check_node db creds hc name node s ≡ ok (checked name node s)
  unfolding check_node
  check_node-checked name node s o = elim (Bool-cases (fails node)) [
    | inl f ↦ rw (o, f) refl
    | inr f ↦ rw (o, f) refl
  ]

  -- Each node of the list is healthy exactly if its query did not fail.
  abbrev pub Reports : StringMap Node → StringMap Bool → Type 0
  Reports nodes h =
      (i : ℕ) (name : Bytes) (node : Node)
      → get_elem? nodes i ≡ some (name, node)
      → get_health name h ≡ some (not (fails node))

  first_and_rest :
      (name : Bytes) (node : Node) (nodes : StringMap Node) (h : StringMap Bool)
      → get_health name h ≡ some (not (fails node))
      → Reports nodes h
      → Reports ((name, node) ∷ nodes) h
  first_and_rest name node nodes h first rest zero name' node' f =
      let same = pair (some-injective _ _ f) in
      subst (λ n. get_health n h ≡ some (not (fails node'))) same.0
        (first ∙ ap (λ n. some (not (fails n))) same.1)
  first_and_rest name node nodes h first rest (suc i) name' node' f = rest i name' node' f

  -- A round over nodes of different names whose connections can all be opened ends. Then each node
  -- is healthy exactly if its query did not fail, the entries of other names are as before, and
  -- for every query that failed one database connection stays open.
  pub check_nodes_round :
      (nodes : StringMap Node) (s : AdminServer)
      → AllOpen nodes
      → AreDistinct nodes
      → (t : AdminServer) × (check_nodes db creds hc nodes s ≡ ok t)
        × (t.unclosed ≡ s.unclosed + failures nodes)
        × Reports nodes t.node_health
        × ((name : Bytes)
            → All (λ p. name ≢ p.0) nodes
            → get_health name t.node_health ≡ get_health name s.node_health)
  unfolding check_nodes
  check_nodes_round [] s o d = (s, refl, omega arith, (λ i name node e. cc), (λ name a. refl))
  check_nodes_round ((name, node) ∷ nodes) s (o, os) (d, ds) =
      let (t, e, count, each, others) = check_nodes_round nodes (checked name node s) os ds in
      (
        t,
        ap (λ r. r >>= check_nodes db creds hc nodes) (check_node-checked name node s o) ∙ e,
        ground (arith, count),
        first_and_rest name node nodes t.node_health
            (others name d ∙ get_health-set_health name (not (fails node)) s.node_health) each,
        (λ name' a.
            others name' a.1
            ∙ get_health-set_health_other name' name (not (fails node)) s.node_health
                (λ q. a.0 (sym q))),
      )
