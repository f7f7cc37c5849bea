-- ===== src/Pool.antt =====
-- pool/pool.go: a pool of backend connections, a buffered channel with a name and a capacity. A
-- connection is a number that stands for the `net.Conn`.
pub mod Fifo
use crunchy_proxy.Go.Channels.{Channel, make, send, receive}
use crunchy_proxy.Go.{Bytes, Outcome, ok, ◌>>=◌}
use crunchy_proxy.Prelude.{ℕ, length}

pub record Pool : Type 0 where
  pub connections : Channel ℕ
  pub name : Bytes
  pub capacity : ℕ

unfoldable pub new_pool : Bytes → ℕ → Pool
new_pool name capacity = record { connections = make capacity; name = name; capacity = capacity }

unfoldable pub add : Pool → ℕ → Outcome Pool
add p connection = do
  connections ← send p.connections connection
  ok (record p { connections = connections })

unfoldable pub next : Pool → Outcome (ℕ × Pool)
next p = do r ← receive p.connections; ok (r.0, record p { connections = r.1 })

-- `Return`
unfoldable pub give_back : Pool → ℕ → Outcome Pool
give_back p connection = do
  connections ← send p.connections connection
  ok (record p { connections = connections })

unfoldable pub len : Pool → ℕ
len p = length p.connections.items
