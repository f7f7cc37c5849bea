-- ===== src/Cli/Command.antt =====
-- cli/util.go, health.go, node.go, stats.go, version.go and stop.go: the commands that ask a running
-- proxy.
use crunchy_proxy.Config.{StringMap}
use crunchy_proxy.Go.Decimal.{show_bool, show_int32}
use crunchy_proxy.Go.{Bytes, Outcome, ok, panic, codes, equal}
use crunchy_proxy.Prelude.{ℕ, Bool, [], ◌∷◌, ◌++◌, Option, none, some, ◌⊎◌, inl, inr, if◌then◌else◌}

-- The flags `host`, `port` and `format`
pub record Flags : Type 0 where
  pub host : Bytes
  pub port : Bytes
  pub format : Bytes

-- The defaults of the flags, `FlagAdminHost`, `FlagAdminPort` and `FlagOutputFormat`
abbrev pub default_flags : Flags
default_flags = record { host = codes "localhost"; port = codes "8000"; format = codes "plain" }

-- How a command ends: it returns an error or none, or calls `os.Exit(1)`. Both with what it printed.
pub data Ended : Type 0 where
  returned : Bytes → Option Bytes → Ended
  exited : Bytes → Ended

-- The grpc library and the network: the errors of `grpc.Dial` and of `net.DialTimeout` for an address,
-- and what each call gives, an error or a response.
pub record AdminClient : Type 0 where
  pub dial : Bytes → Option Bytes
  pub dial_timeout : Bytes → Option Bytes
  pub health : Bytes ⊎ StringMap Bool
  pub nodes : Bytes ⊎ StringMap Bytes
  pub statistics : Bytes ⊎ StringMap ℕ
  pub version : Bytes ⊎ Bytes
  pub shutdown : Option Bytes

-- The encodings of package encoding/json
pub record Json : Type 0 where
  pub health : StringMap Bool → Bytes
  pub nodes : StringMap Bytes → Bytes
  pub statistics : StringMap ℕ → Bytes

abbrev newline : Bytes
newline = 10 ∷ []

-- `fmt.Sprintf("%s:%s", host, port)`
unfoldable pub address_of : Flags → Bytes
address_of flags = flags.host ++ codes ":" ++ flags.port

-- `adminServerDialer`, and behind it the rest of the command.
unfoldable pub admin_server_dialer : AdminClient → Bytes → Outcome Ended → Outcome Ended
admin_server_dialer client address rest = elim (client.dial_timeout address) [
  | some err ↦ ok (exited (codes "Could not connect - " ++ err ++ newline))
  | none ↦ rest
]

-- `grpc.Dial` and the first use of its connection, which is nil after an error: a call on the nil
-- pointer panics. The call dials the address by `adminServerDialer`.
unfoldable pub dialed : AdminClient → Flags → Outcome Ended → Outcome Ended
unfolding address_of admin_server_dialer
dialed client flags rest = elim (client.dial (address_of flags)) [
  | some err ↦ panic
  | none ↦ admin_server_dialer client (address_of flags) rest
]

-- The `switch format`
unfoldable pub in_format : Flags → Bytes → Bytes → Bytes → Bytes
in_format flags json plain unsupported =
    if equal flags.format (codes "json")
    then json
    else if equal flags.format (codes "plain")
    then plain
    else unsupported ++ codes "'" ++ flags.format ++ codes "'"

-- `formatPlain`
unfoldable pub format_plain : StringMap Bool → Bytes
format_plain [] = []
format_plain ((name, healthy) ∷ hc) =
    codes "* " ++ name ++ codes ": " ++ show_bool healthy ++ newline ++ format_plain hc

-- `runHealth`
abbrev pub health_answered : Json → Flags → Bytes ⊎ StringMap Bool → Outcome Ended
health_answered json flags (inl err) = ok (returned (codes "Error: " ++ err) (some err))
health_answered json flags (inr health) =
    let result =
      in_format flags (json.health health) (format_plain health)
        (codes "Error: Unsupported format ") in
    ok (returned (result ++ newline) none)

unfoldable pub run_health : Json → AdminClient → Flags → Outcome Ended
unfolding dialed in_format format_plain
run_health json client flags = dialed client flags (health_answered json flags client.health)

-- The plain listing of `runNode`
unfoldable pub plain_nodes : StringMap Bytes → Bytes
plain_nodes [] = []
plain_nodes ((name, node) ∷ nodes) =
    codes "* " ++ name ++ codes " - " ++ node ++ newline ++ plain_nodes nodes

-- The error that is printed and passed over, and the response: `GetNodes` and `GetQueries` of the nil
-- response that comes with an error are the nil map.
abbrev pub printed_error : {A : Type 0} → Bytes ⊎ StringMap A → Bytes
printed_error (inl err) = err ++ newline
printed_error (inr response) = []

abbrev pub or_nil : {A : Type 0} → Bytes ⊎ StringMap A → StringMap A
or_nil (inl err) = []
or_nil (inr response) = response

-- `runNode`
unfoldable pub run_node : Json → AdminClient → Flags → Outcome Ended
unfolding dialed in_format plain_nodes
run_node json client flags =
    let nodes = or_nil client.nodes in
    let result =
      in_format flags (json.nodes nodes) (plain_nodes nodes)
        (codes "Error: Unsupported format - ") in
    dialed client flags (ok (returned (printed_error client.nodes ++ result ++ newline) none))

-- The plain listing of `runStats`
unfoldable pub plain_stats : StringMap ℕ → Bytes
plain_stats [] = []
plain_stats ((name, query) ∷ queries) =
    codes "* " ++ name ++ codes " - " ++ show_int32 query ++ newline ++ plain_stats queries

-- `runStats`
unfoldable pub run_stats : Json → AdminClient → Flags → Outcome Ended
unfolding dialed in_format plain_stats
run_stats json client flags =
    let queries = or_nil client.statistics in
    let result =
      in_format flags (json.statistics queries) (plain_stats queries)
        (codes "Error: Unsupported format - ") in
    dialed client flags (ok (returned (printed_error client.statistics ++ result ++ newline) none))

-- `runVersion`, which reads the field of a response that is nil after an error.
abbrev pub version_answered : Bytes ⊎ Bytes → Outcome Ended
version_answered (inl err) = panic
version_answered (inr version) = ok (returned (version ++ newline) none)

unfoldable pub run_version : AdminClient → Flags → Outcome Ended
unfolding dialed
run_version client flags = dialed client flags (version_answered client.version)

-- `runStop` passes over what the call gives.
abbrev pub stop_answered : Option Bytes → Outcome Ended
stop_answered (some err) = ok (returned [] none)
stop_answered none = ok (returned [] none)

unfoldable pub run_stop : AdminClient → Flags → Outcome Ended
unfolding dialed
run_stop client flags = dialed client flags (stop_answered client.shutdown)
