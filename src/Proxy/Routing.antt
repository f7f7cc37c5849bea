-- ===== src/Proxy/Routing.antt =====
-- proxy/proxy.go: the `Proxy` record and the functions on its pools. A `*pool.Pool` is the position
-- of the pool in `pools`, so that a handler that keeps it sees what the others do to it.
pub mod Moves
use crunchy_proxy.Go.Channels.{Channel, send, receive}
use crunchy_proxy.Go.{Bytes, Outcome, ok, panic, ◌>>=◌, equal}
use crunchy_proxy.Pool.{Pool}
use crunchy_proxy.Pool
use crunchy_proxy.Prelude.{
  ℕ, suc, ◌+◌, ◌%◌, ◌^◌, Bool, List, [], ◌∷◌, Option, none, some, get_elem?, set, if◌then◌else◌,
}

-- `Stats`: the int32 counters by node name. A name that is not in the map counts as 0.
abbrev pub Stats : Type 0
Stats = List (Bytes × ℕ)

-- `clients` and `master` are declared and never used; `lock` serialises the updates of `stats`.
pub record Proxy : Type 0 where
  pub pools : List Pool
  pub write_pools : Channel ℕ
  pub read_pools : Channel ℕ
  pub stats : Stats

-- `p.Stats[name]`
unfoldable pub get_stat : Bytes → Stats → ℕ
get_stat name [] = 0
get_stat name ((key, n) ∷ stats) = if equal key name then n else get_stat name stats

-- `p.Stats[name] += 1`, on 32 bits
unfoldable pub count_query : Bytes → Stats → Stats
count_query name [] = (name, 1) ∷ []
count_query name ((key, n) ∷ stats) =
    if equal key name then (key, (n + 1) % 2 ^ 32) ∷ stats else (key, n) ∷ count_query name stats

-- `getPool`
unfoldable pub get_pool : Bool → Proxy → Outcome (ℕ × Proxy)
get_pool read p =
    if read
    then (do r ← receive p.read_pools; ok (r.0, record p { read_pools = r.1 }))
    else do r ← receive p.write_pools; ok (r.0, record p { write_pools = r.1 })

-- `returnPool`
unfoldable pub return_pool : ℕ → Bool → Proxy → Outcome Proxy
return_pool pl read p =
    if read
    then (do read_pools ← send p.read_pools pl; ok (record p { read_pools = read_pools }))
    else do write_pools ← send p.write_pools pl; ok (record p { write_pools = write_pools })

-- `*cp`, for a pointer that may be nil
unfoldable pub deref : Option ℕ → Proxy → Outcome Pool
deref none p = panic
deref (some cp) p = elim (get_elem? p.pools cp) [ none ↦ panic | some pool ↦ ok pool ]

abbrev pub store : ℕ → Pool → Proxy → Proxy
store cp pool p = record p { pools = set p.pools cp pool }

-- `cp.Next()`
unfoldable pub next_backend : ℕ → Proxy → Outcome (ℕ × Proxy)
next_backend cp p = do pool ← deref (some cp) p; r ← Pool.next pool; ok (r.0, store cp r.1 p)

-- `cp.Return(backend)`
unfoldable pub return_backend : ℕ → ℕ → Proxy → Outcome Proxy
return_backend cp backend p = do
  pool ← deref (some cp) p
  pool ← Pool.give_back pool backend
  ok (store cp pool p)
