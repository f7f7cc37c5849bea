-- ===== src/Tests/Health.antt =====
-- A concrete round of the health check: of two nodes, both fail their query.
use crunchy_proxy.Config.{Node, StringMap, HealthCheckConfig}
use crunchy_proxy.Go.{Bytes, ok, codes}
use crunchy_proxy.Prelude.{◌+◌, ◌≡◌, ◌≢◌, refl, true, false, [], ◌∷◌, All}
use crunchy_proxy.Server.Health.Rounds.{all_failures, health_rounds}
use crunchy_proxy.Server.Health.{Reports}
use crunchy_proxy.Server.{AdminServer, Database, get_health, start_health_check}
use crunchy_proxy.Tests.Connect.{creds}

abbrev pub database : Database
database = record {
  split = λ host_port. (host_port, codes "5432");
  open_fails = λ connection. false;
  query_fails = λ connection query. true;
}

abbrev pub check : HealthCheckConfig
check = record { delay = 1; query = codes "select" }

abbrev pub node : Node
node = record { host_port = codes "h"; role = codes "replica"; metadata = []; healthy = true }

abbrev pub nodes : StringMap Node
nodes = (codes "n", node) ∷ (codes "n2", node) ∷ []

abbrev pub server : AdminServer
server = record { node_health = []; unclosed = 0 }

-- In the second round the first node answers.
abbrev later : Database
later = record database { query_fails = λ connection query. false }

health_rounds_example :
    (t : AdminServer) × (start_health_check (database ∷ later ∷ []) creds check nodes server ≡ ok t)
    × (t.unclosed ≡ server.unclosed + all_failures creds check (database ∷ later ∷ []) nodes)
    × Reports later creds check nodes t.node_health
    × ((name : Bytes)
        → All (λ p. name ≢ p.0) nodes
        → get_health name t.node_health ≡ get_health name server.node_health)
health_rounds_example =
    health_rounds creds check database (later ∷ []) nodes server
      ((refl, (refl, tt)), ((refl, (refl, tt)), tt)) (((λ e. cc), tt), (tt, tt))
