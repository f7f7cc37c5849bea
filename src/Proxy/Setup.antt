-- ===== src/Proxy/Setup.antt =====
-- proxy/proxy.go, `NewProxy` and `setupPools`: the pools of the nodes and the connections in them.
pub mod Layout
pub mod Built
pub mod Needed
pub mod Ready
pub mod Owners
pub mod Served
use crunchy_proxy.Config.{Node, StringMap, Credentials, Viper, node_role_master}
use crunchy_proxy.Connect.Dial.{Dialed, refused, connected, exited}
use crunchy_proxy.Connect.Password.{handle_authentication_request}
use crunchy_proxy.Connect.{Conn, send, receive}
use crunchy_proxy.Go.Channels.{make}
use crunchy_proxy.Go.Channels
use crunchy_proxy.Go.{Bytes, Outcome, ok, panic, ◌>>=◌, codes, equal}
use crunchy_proxy.Pool
use crunchy_proxy.Prelude.{
  ℕ, zero, suc, Bool, List, [], ◌∷◌, ◌++◌, Option, none, some, length, if◌then◌else◌,
}
use crunchy_proxy.Protocol.Startup.{create_startup_message}
use crunchy_proxy.Proxy.Routing.{Proxy, deref, store}

-- What `setupPools` works with. `connect` is what the calls of `Connect` give, by the number of the
-- call from 0 on and the host: a connection goes by that number from then on.
pub record Environment : Type 0 where
  pub md5_sum : Bytes → Bytes
  pub creds : Credentials
  pub viper : Viper
  pub connect : ℕ → Bytes → Outcome Dialed

-- What is done with a new connection. Where `Connect` gave an error, `connection` is nil, and its
-- `Write` panics. A connection that is not authenticated is logged, and kept; none is the end of the
-- process.
unfoldable pub log_in : Environment → Dialed → Outcome (Option Conn)
unfolding send receive
log_in env (refused err) = panic
log_in env exited = ok none
log_in env (connected connection) = do
  startup_message ←
      create_startup_message (env.viper.get_string (codes "credentials.username"))
        (env.viper.get_string (codes "credentials.database"))
        (env.viper.get_string_map_string (codes "credentials.options"))
  let connection = (send connection startup_message).1
  let (response, connection) = receive connection
  r ← handle_authentication_request env.md5_sum env.creds env.viper connection response.buffer
  ok (some r.1)

-- The number of calls of `Connect` so far, and the proxy.
abbrev pub Progress : Type 0
Progress = ℕ × Proxy

-- `newPool.Add(connection)`; `again` is the rest of the loop.
unfoldable pub add_connection :
    (ℕ → Proxy → Outcome (Option Progress))
    → ℕ
    → ℕ
    → Proxy
    → Option Conn
    → Outcome (Option Progress)
add_connection again cp opened p none = ok none
add_connection again cp opened p (some connection) = do
  pool ← deref (some cp) p
  pool ← Pool.add pool opened
  again (suc opened) (store cp pool p)

-- The inner loop, for the connections that are still to be made.
unfoldable pub fill_pool : Environment → Bytes → ℕ → ℕ → ℕ → Proxy → Outcome (Option Progress)
unfolding log_in add_connection
fill_pool env host cp zero opened p = ok (some (opened, p))
fill_pool env host cp (suc n) opened p =
    env.connect opened host >>= log_in env >>= add_connection (fill_pool env host cp n) cp opened p

-- A new pool goes into the channel of its node's role.
unfoldable pub add_pool : Bytes → Node → ℕ → Proxy → Outcome Proxy
unfolding Pool.new_pool Channels.send
add_pool name node capacity p =
    let cp = length p.pools in
    let p = record p { pools = p.pools ++ Pool.new_pool name capacity ∷ [] } in
    if equal node.role node_role_master
    then (do
      write_pools ← Channels.send p.write_pools cp
      ok (record p { write_pools = write_pools }))
    else do read_pools ← Channels.send p.read_pools cp; ok (record p { read_pools = read_pools })

abbrev or_exit :
    (Progress → Outcome (Option Progress)) → Option Progress → Outcome (Option Progress)
or_exit again none = ok none
or_exit again (some progress) = again progress

-- The outer loop
unfoldable pub setup_nodes : Environment → ℕ → StringMap Node → Progress → Outcome (Option Progress)
unfolding add_pool fill_pool
setup_nodes env capacity [] progress = ok (some progress)
setup_nodes env capacity ((name, node) ∷ nodes) (opened, p) = do
  p' ← add_pool name node capacity p
  r ← fill_pool env node.host_port (length p.pools) capacity opened p'
  or_exit (setup_nodes env capacity nodes) r

-- `NewProxy`; both channels have room for all pools.
unfoldable pub new_proxy : Environment → ℕ → StringMap Node → Outcome (Option Progress)
unfolding setup_nodes
new_proxy env capacity nodes = setup_nodes env capacity nodes (
  0,
  record {
    pools = [];
    write_pools = make (length nodes);
    read_pools = make (length nodes);
    stats = [];
  },
)
