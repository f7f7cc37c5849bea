-- ===== src/Server/Health/Rounds.antt =====
-- What any number of rounds of the health check leaves.
use crunchy_proxy.Config.{Node, StringMap, Credentials, HealthCheckConfig}
use crunchy_proxy.Go.{Bytes, ok, ◌>>=◌}
use crunchy_proxy.Prelude.{ℕ, ◌+◌, ◌≡◌, ◌≢◌, ap, ◌∙◌, List, [], ◌∷◌, All, arith}
use crunchy_proxy.Server.Health.{AllOpen, AreDistinct, Reports, failures, check_nodes_round}
use crunchy_proxy.Server.{AdminServer, Database, get_health, start_health_check}

abbrev pub last_of : Database → List Database → Database
last_of db [] = db
last_of db (next ∷ dbs) = last_of next dbs

module _ (creds : Credentials) (hc : HealthCheckConfig) where
  -- How many checks fail in all rounds.
  abbrev pub all_failures : List Database → StringMap Node → ℕ
  all_failures [] nodes = 0
  all_failures (db ∷ dbs) nodes = failures db creds hc nodes + all_failures dbs nodes

  abbrev pub AllOpened : List Database → StringMap Node → Type 0
  AllOpened [] nodes = Unit {0}
  AllOpened (db ∷ dbs) nodes = AllOpen db creds hc nodes × AllOpened dbs nodes

  -- After one or more rounds of the health check over nodes of different names, in each of which all
  -- connections can be opened, each node is healthy exactly if its query did not fail in the last
  -- round, the entries of other names are as before, and a database connection has been left open for
  -- every query that failed in any of the rounds.
  pub health_rounds :
      (db : Database) (dbs : List Database) (nodes : StringMap Node) (s : AdminServer)
      → AllOpened (db ∷ dbs) nodes
      → AreDistinct db creds hc nodes
      → (t : AdminServer) × (start_health_check (db ∷ dbs) creds hc nodes s ≡ ok t)
        × (t.unclosed ≡ s.unclosed + all_failures (db ∷ dbs) nodes)
        × Reports (last_of db dbs) creds hc nodes t.node_health
        × ((name : Bytes)
            → All (λ p. name ≢ p.0) nodes
            → get_health name t.node_health ≡ get_health name s.node_health)
  unfolding start_health_check
  health_rounds db [] nodes s o d =
      let (t, e, count, each, others) = check_nodes_round db creds hc nodes s o.0 d in
      (
        t,
        ap (λ r. r >>= start_health_check [] creds hc nodes) e,
        omega (arith, count),
        each,
        others,
      )
  health_rounds db (next ∷ dbs) nodes s o d =
      let (u, first, count, _, others) = check_nodes_round db creds hc nodes s o.0 d in
      let (t, rest, total, each, same) =
        health_rounds next dbs nodes u o.1 (distinct db next nodes d) in
      (
        t,
        ap (λ r. r >>= start_health_check (next ∷ dbs) creds hc nodes) first ∙ rest,
        omega (arith, count, total),
        each,
        λ name a. same name a ∙ others name a,
      )
    where
      distinct :
          (db next : Database) (nodes : StringMap Node)
          → AreDistinct db creds hc nodes
          → AreDistinct next creds hc nodes
      distinct db next [] d = tt
      distinct db next ((name, node) ∷ nodes) d = (d.0, distinct db next nodes d.1)
