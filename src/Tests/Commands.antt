-- ===== src/Tests/Commands.antt =====
-- Concrete commands, starts and audits.
use crunchy_proxy.Adapter.Chain.{audits, audited, audits_share_file}
use crunchy_proxy.Adapter.{
  Audited, Host, Metadata, text, mock_adapter, decorate, audit, get_string, path_of,
}
use crunchy_proxy.Cli.Command.{AdminClient, Json, returned, default_flags, run_health, run_stats}
use crunchy_proxy.Cli.Counted.{stats_line, stats_shows_counts}
use crunchy_proxy.Cli.Listing.{read_listing}
use crunchy_proxy.Cli.Served.{health_shows_round}
use crunchy_proxy.Cli.Start.Spawned.{NoneAsks, spawned_once}
use crunchy_proxy.Cli.Start.{StartFlags, default_start_flags, spawned, run_start}
use crunchy_proxy.Config.{Config, ConfigFile, StringMap}
use crunchy_proxy.Go.Decimal.{read_int32}
use crunchy_proxy.Go.Strings.{has_prefix}
use crunchy_proxy.Go.{Bytes, ok, codes, equal}
use crunchy_proxy.Prelude.{
  ℕ, zero, suc, subst, All, ◌+◌, ◌%◌, ◌^◌, ◌≡◌, ◌≢◌, refl, Bool, true, false, ◌||◌, List, [], ◌∷◌,
  ◌++◌, none, some, inl, inr, arith,
}
use mathlib.Core.Option.{some-injective}
use crunchy_proxy.Pool.{Pool}
use crunchy_proxy.Proxy.Counting.Nodes.{served_from}
use crunchy_proxy.Proxy.Ownership.Origin.{OwnPools}
use crunchy_proxy.Proxy.Routing.{get_stat}
use crunchy_proxy.Server.Health.{Reports}
use crunchy_proxy.Server.{
  AdminServer, check_nodes, health_response, statistics_response, set_health, check_node,
}
use crunchy_proxy.Tests.Connect.{creds}
use crunchy_proxy.Tests.Health.{database, check, nodes, server}
use crunchy_proxy.Tests.Sessions.{started_state, serving_state, whole_schedule, whole_schedule-runs}

abbrev json : Json
json = record { health = λ h. []; nodes = λ n. []; statistics = λ s. [] }

-- A server that answers every call by an error
abbrev failing : AdminClient
failing = record {
  dial = λ address. none;
  dial_timeout = λ address. none;
  health = inl (codes "gone");
  nodes = inl (codes "gone");
  statistics = inl (codes "gone");
  version = inl (codes "gone");
  shutdown = some (codes "gone");
}

-- The server behind one round of its check
abbrev checked : AdminServer
checked = record { node_health = (codes "n", false) ∷ (codes "n2", false) ∷ []; unclosed = 2 }

round : check_nodes database creds check nodes server ≡ ok checked
unfolding check_nodes check_node set_health equal
round = refl

abbrev healthy_client : AdminClient
healthy_client = record failing { health = inr (health_response checked) }

health_shows_round_example :
    (listing : Bytes) × (health : StringMap Bool) × (run_health json healthy_client default_flags
      ≡ ok (returned (listing ++ 10 ∷ []) none))
    × (read_listing listing ≡ some health)
    × Reports database creds check nodes health
health_shows_round_example =
    health_shows_round database creds check nodes json healthy_client default_flags
      (refl, (refl, tt)) (((λ e. cc), tt), (tt, tt)) (omega arith) (refl, refl) refl checked round
      refl

abbrev counting_client : AdminClient
counting_client = record failing { statistics = inr ((codes "m", 1) ∷ []) }

counted : get_stat (codes "m") serving_state.proxy.stats ≡ 1
unfolding get_stat equal
counted = refl

one_pool : OwnPools (λ c. 0) (λ k. codes "m") started_state.proxy.pools
one_pool zero p e =
    subst
      (λ (p : Pool). All (λ (c : ℕ). ◌≡◌ {A = ℕ} 0 0) p.connections.items × (p.name ≡ codes "m"))
      (some-injective _ _ e) ((refl, tt), refl)
one_pool (suc k) p e = cc

stats_shows_counts_example :
    (before : Bytes) × (number : Bytes) × (after : Bytes) × (run_stats json counting_client
        default_flags
      ≡ ok (returned (before ++ stats_line (codes "m") number after) none))
    × (read_int32 number
        ≡ (get_stat (codes "m") started_state.proxy.stats
            + served_from (λ c. 0) (λ k. codes "m") (codes "m") whole_schedule started_state)
          % 2 ^ 32)
unfolding statistics_response
stats_shows_counts_example =
    stats_shows_counts json counting_client default_flags (λ c. 0) (λ k. codes "m") whole_schedule
      started_state serving_state 0 (codes "m") 1 (refl, (refl, tt)) one_pool (refl, refl) refl tt
      whole_schedule-runs refl refl counted

abbrev empty_config : Config
empty_config = record {
  server = record { admin_host_port = []; proxy_host_port = [] };
  pool_capacity = 1;
  nodes = [];
  credentials = creds;
  health_check = check;
}

abbrev config_files : ConfigFile
config_files = record { read_error = λ path. false; unmarshal = λ path. some empty_config }

-- A parser that sets `background` if an argument begins with the name of the flag.
asks : List Bytes → Bool
asks [] = false
asks (arg ∷ args) = has_prefix arg (codes "--background") || asks args

abbrev parse : List Bytes → StartFlags
parse args = record default_start_flags { background = asks args }

parse-quiet : (args : List Bytes) → NoneAsks args → (parse args).background ≡ false
unfolding asks
parse-quiet [] h = refl
parse-quiet (arg ∷ args) h = rw (h.0, asks) (parse-quiet args h.1)

abbrev asking : List Bytes
asking = codes "proxy" ∷ codes "start" ∷ codes "--background" ∷ []

spawned_once_example :
    run_start
      (λ level. true)
      config_files
      (parse (codes "proxy" ∷ codes "start" ∷ []))
      (codes "proxy" ∷ codes "start" ∷ [])
    ≢ ok (spawned (codes "proxy") [])
unfolding run_start asks
spawned_once_example =
    spawned_once (λ level. true) config_files parse parse-quiet asking (codes "proxy")
      (codes "proxy") (codes "start" ∷ []) [] refl

abbrev host : Host
host = record { open_fails = λ path. false; now = λ k. k ∷ [] }

abbrev metadata : Bytes → Metadata
metadata path = (codes "filepath", text path) ∷ []

abbrev unopened : Audited
unopened = record { file = none; written = []; clock = 0 }

audits_share_file_example :
    decorate mock_adapter
      (audits host 5 (metadata (codes "/a") ∷ []) ++ audit host (metadata (codes "/b")) ∷ [])
      (codes "query")
      5
      unopened
    ≡ mock_adapter (codes "query") 5 (audited host 5 (path_of (codes "/b")) 2 unopened)
unfolding get_string equal
audits_share_file_example =
    audits_share_file host 5 (metadata (codes "/a") ∷ []) (metadata (codes "/b")) mock_adapter
      (codes "query") (codes "/b") unopened refl refl refl
