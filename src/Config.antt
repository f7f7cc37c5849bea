-- ===== src/Config.antt =====
-- common/common.go and config/config.go: the configuration. The file is read by the library viper,
-- which is not modelled: `Config` is what `Unmarshal` leaves in `config.c`, and `Viper` what the
-- library answers to the lookups by key.
use crunchy_proxy.Go.{Bytes, codes}
use crunchy_proxy.Prelude.{ℕ, Bool, List, Option, none, some, if◌then◌else◌}

-- `NODE_ROLE_MASTER`, `NODE_ROLE_REPLICA`
abbrev pub node_role_master : Bytes
node_role_master = codes "master"

abbrev pub node_role_replica : Bytes
node_role_replica = codes "replica"

-- A map with string keys, in the order that an iteration takes.
abbrev pub StringMap : Type 0 → Type 0
StringMap A = List (Bytes × A)

pub record Node : Type 0 where
  pub host_port : Bytes
  pub role : Bytes
  pub metadata : StringMap Bytes
  pub healthy : Bool

pub record SslConfig : Type 0 where
  pub enable : Bool
  pub ssl_mode : Bytes
  pub ssl_cert : Bytes
  pub ssl_key : Bytes
  pub ssl_root_ca : Bytes
  pub ssl_server_cert : Bytes
  pub ssl_server_key : Bytes
  pub ssl_server_ca : Bytes

pub record Credentials : Type 0 where
  pub username : Bytes
  pub password : Bytes
  pub database : Bytes
  pub ssl : SslConfig
  pub options : StringMap Bytes

pub record HealthCheckConfig : Type 0 where
  pub delay : ℕ
  pub query : Bytes

pub record ServerConfig : Type 0 where
  pub admin_host_port : Bytes
  pub proxy_host_port : Bytes

pub record Config : Type 0 where
  pub server : ServerConfig
  pub pool_capacity : ℕ
  pub nodes : StringMap Node
  pub credentials : Credentials
  pub health_check : HealthCheckConfig

-- `GetBool`, `GetString` and `GetStringMapString`
pub record Viper : Type 0 where
  pub get_bool : Bytes → Bool
  pub get_string : Bytes → Bytes
  pub get_string_map_string : Bytes → StringMap Bytes

-- `GetNodes`, `GetProxyConfig` and `GetAdminConfig`, whose one field is taken at once, `GetPoolCapacity`,
-- `GetCredentials` and `GetHealthCheckConfig`, on the value of `c`
unfoldable pub get_nodes : Config → StringMap Node
get_nodes c = c.nodes

unfoldable pub get_proxy_config : Config → Bytes
get_proxy_config c = c.server.proxy_host_port

unfoldable pub get_admin_config : Config → Bytes
get_admin_config c = c.server.admin_host_port

unfoldable pub get_pool_capacity : Config → ℕ
get_pool_capacity c = c.pool_capacity

unfoldable pub get_credentials : Config → Credentials
get_credentials c = c.credentials

unfoldable pub get_health_check_config : Config → HealthCheckConfig
get_health_check_config c = c.health_check

-- What the library viper makes of the file that is set, or of the one it finds in its two search
-- paths: the error of `ReadInConfig`, and what `Unmarshal` gives, none for an error.
pub record ConfigFile : Type 0 where
  pub read_error : Option Bytes → Bool
  pub unmarshal : Option Bytes → Option Config

-- `SetConfigPath`, on what the library keeps: the path that was set
unfoldable pub set_config_path : Bytes → Option Bytes → Option Bytes
set_config_path path old = some path

-- `ReadConfig`; none is the end of the process in `log.Fatal`.
unfoldable pub read_config : ConfigFile → Option Bytes → Option Config
read_config file path = if file.read_error path then none else file.unmarshal path
