-- ===== src/Server.antt =====
-- server/admin.go: the answers of the admin service, and the health check. The grpc service and the
-- pauses between two rounds of the check are not modelled; Lifecycle has the listeners.
pub mod Health
pub mod Lifecycle
use crunchy_proxy.Config.{Node, StringMap, Credentials, HealthCheckConfig}
use crunchy_proxy.Go.{Bytes, Outcome, ok, panic, ◌>>=◌, codes, equal}
use crunchy_proxy.Prelude.{
  ℕ, suc, Bool, true, false, not, List, [], ◌∷◌, ◌++◌, Option, none, some, map, if◌then◌else◌,
}
use crunchy_proxy.Proxy.Routing.{Stats}

-- What the service keeps of the nodes, `nodeHealth`, and the number of database connections that were
-- opened for checks and are open still.
pub record AdminServer : Type 0 where
  pub node_health : StringMap Bool
  pub unclosed : ℕ

-- A round's database library: the two results of `net.SplitHostPort`, whether `sql.Open` fails on a
-- connection string, and whether `Query` fails on a connection.
pub record Database : Type 0 where
  pub split : Bytes → Bytes × Bytes
  pub open_fails : Bytes → Bool
  pub query_fails : Bytes → Bytes → Bool

-- The response of `Nodes`
unfoldable pub nodes_response : StringMap Node → StringMap Bytes
nodes_response = map (λ p. (p.0, p.1.host_port))

-- The response of `Pools`
unfoldable pub pools_response : List Bytes
pools_response = codes "Pool" ∷ []

-- The response of `Health`
unfoldable pub health_response : AdminServer → StringMap Bool
health_response s = s.node_health

-- The response of `Statistics`
unfoldable pub statistics_response : Stats → Stats
statistics_response stats = stats

-- The response of `Version`
unfoldable pub version_response : Bytes
version_response = codes "1.0.0beta"

-- The loop over the options
unfoldable pub option_string : StringMap Bytes → Bytes
option_string [] = []
option_string ((key, value) ∷ options) =
    codes " " ++ key ++ codes "=" ++ value ++ option_string options

-- The connection string of `getDBConnection`
unfoldable pub connection_string : Database → Credentials → Node → Bytes
unfolding option_string
connection_string db creds node =
    let (host, port) = db.split node.host_port in
    codes "host="
    ++ host
    ++ codes " port="
    ++ port
    ++ codes " "
    ++ codes " user="
    ++ creds.username
    ++ codes " database="
    ++ creds.database
    ++ codes " sslmode="
    ++ creds.ssl.ssl_mode
    ++ codes " application_name=proxy_healthcheck"
    ++ (if equal creds.password [] then [] else codes " password=" ++ creds.password)
    ++ (if creds.ssl.enable
        then codes " sslcert="
          ++ creds.ssl.ssl_cert
          ++ codes " sslkey="
          ++ creds.ssl.ssl_key
          ++ codes " sslrootcert="
          ++ creds.ssl.ssl_root_ca
        else [])
    ++ option_string creds.options

-- `s.nodeHealth[name] = health`
unfoldable pub set_health : Bytes → Bool → StringMap Bool → StringMap Bool
set_health name health [] = (name, health) ∷ []
set_health name health ((key, old) ∷ rest) =
    if equal key name then (key, health) ∷ rest else (key, old) ∷ set_health name health rest

-- `s.nodeHealth[name]`, none where the key is missing
unfoldable pub get_health : Bytes → StringMap Bool → Option Bool
get_health name [] = none
get_health name ((key, health) ∷ rest) =
    if equal key name then some health else get_health name rest

-- The body of the loop over the nodes. Where `sql.Open` fails, the connection is nil, and its `Query`
-- panics. Where the query fails, the loop goes on without `conn.Close()`.
unfoldable pub check_node :
    Database → Credentials → HealthCheckConfig → Bytes → Node → AdminServer → Outcome AdminServer
unfolding set_health
check_node db creds hc name node s =
    let connection = connection_string db creds node in
    if db.open_fails connection
    then panic
    else if db.query_fails connection hc.query
    then ok
        (record { node_health = set_health name false s.node_health; unclosed = suc s.unclosed })
    else ok (record s { node_health = set_health name true s.node_health })

-- One round of `startHealthCheck`
unfoldable pub check_nodes :
    Database → Credentials → HealthCheckConfig → StringMap Node → AdminServer → Outcome AdminServer
unfolding check_node
check_nodes db creds hc [] s = ok s
check_nodes db creds hc ((name, node) ∷ nodes) s =
    check_node db creds hc name node s >>= check_nodes db creds hc nodes

-- The loop of `startHealthCheck`, for as many rounds as there are answers of the database library.
unfoldable pub start_health_check :
    List Database
    → Credentials
    → HealthCheckConfig
    → StringMap Node
    → AdminServer
    → Outcome AdminServer
start_health_check [] creds hc nodes s = ok s
start_health_check (db ∷ dbs) creds hc nodes s =
    check_nodes db creds hc nodes s >>= start_health_check dbs creds hc nodes
