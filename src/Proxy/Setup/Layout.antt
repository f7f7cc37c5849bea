-- ===== src/Proxy/Setup/Layout.antt =====
-- What the pools hold once they are set up.
use crunchy_proxy.Config.{Node, StringMap, node_role_master}
use crunchy_proxy.Connect.Buffers.{AreBytes, length-fill}
use crunchy_proxy.Connect.Dial.{connected}
use crunchy_proxy.Connect.Password.Total.{handle_authentication_request_total}
use crunchy_proxy.Connect.{Conn, send, receive, received, buffer_size}
use crunchy_proxy.Go.Channels.{Channel, make}
use crunchy_proxy.Go.Channels
use crunchy_proxy.Go.{Bytes, Outcome, ok, ◌>>=◌, IoError, codes, equal}
use crunchy_proxy.Pool.{Pool}
use crunchy_proxy.Pool
use crunchy_proxy.Prelude.{
  ℕ, zero, suc, ◌+◌, ◌≤◌, ◌<◌, ◌≡◌, refl, ap, ◌∙◌, sym, Bool, List, [], ◌∷◌, ◌++◌, append_assoc,
  append-nil, Option, some, length, length-append, get_elem?, set, lt→ltb, arith, if◌then◌else◌,
}
use crunchy_proxy.Protocol.Startup.Layout.{create_startup_message-frame}
use crunchy_proxy.Proxy.Routing.{Proxy, deref, store}
use crunchy_proxy.Proxy.Setup.{Environment, Progress, log_in, add_connection, fill_pool}

-- `n` numbers from `first` on
abbrev pub numbers : ℕ → ℕ → List ℕ
numbers first zero = []
numbers first (suc n) = first ∷ numbers (suc first) n

abbrev pub pool_of : Bytes → ℕ → List ℕ → Pool
pool_of name capacity items = record {
  connections = record { items = items; cap = capacity };
  name = name;
  capacity = capacity;
}

-- Full pools, one for each node, numbered through.
abbrev pub pools_of : ℕ → ℕ → StringMap Node → List Pool
pools_of capacity first [] = []
pools_of capacity first ((name, node) ∷ nodes) =
    pool_of name capacity (numbers first capacity) ∷ pools_of capacity (first + capacity) nodes

-- The positions, from `k` on, of the nodes that are masters, or that are not.
abbrev pub positions : Bool → ℕ → StringMap Node → List ℕ
positions master k [] = []
positions master k ((name, node) ∷ nodes) =
    if equal node.role node_role_master
    then (if master then k ∷ positions master (suc k) nodes else positions master (suc k) nodes)
    else (if master then positions master (suc k) nodes else k ∷ positions master (suc k) nodes)

abbrev pub opened_after : ℕ → ℕ → StringMap Node → ℕ
opened_after capacity first [] = first
opened_after capacity first (node ∷ nodes) = opened_after capacity (first + capacity) nodes

-- Every call of `Connect` gives a connection.
abbrev pub AllConnect : Environment → Type 0
AllConnect env =
    (k : ℕ) (host : Bytes) → (c : Conn) × (env.connect k host ≡ ok (connected c)) × AreBytes c.reads

receive-long :
    (c : Conn) (reads : List (Bytes × Option IoError))
    → AreBytes reads
    → (let r = receive (record c { reads = reads }) in
        (13 ≤ length r.0.buffer) × AreBytes r.1.reads)
unfolding receive received
receive-long c [] h = (omega (arith, length-fill buffer_size []), tt)
receive-long c ((chunk, err) ∷ reads) h = (omega (arith, length-fill buffer_size chunk), h.1)

log_in_total :
    (env : Environment) (c : Conn)
    → AreBytes c.reads
    → (c' : Conn) × (log_in env (connected c) ≡ ok (some c'))
unfolding log_in send
log_in_total env c h =
    rw
      (
        create_startup_message-frame (env.viper.get_string (codes "credentials.username"))
            (env.viper.get_string (codes "credentials.database"))
            (env.viper.get_string_map_string (codes "credentials.options")),
        log_in,
      )
      (let (long, bytes) = receive-long (send c _).1 c.reads h in
        let (r, e) =
          handle_authentication_request_total env.md5_sum env.creds env.viper
            (receive (send c _).1).1 (receive (send c _).1).0.buffer bytes long in
        (r.1, ap (λ o. o >>= λ r. ok (some r.1)) e))

get_elem-last : {A : Type 0} (ps : List A) (x : A) → get_elem? (ps ++ x ∷ []) (length ps) ≡ some x
get_elem-last [] x = refl
get_elem-last (p ∷ ps) x = get_elem-last ps x

set-last : {A : Type 0} (ps : List A) (x y : A) → set (ps ++ x ∷ []) (length ps) y ≡ ps ++ y ∷ []
set-last [] x y = refl
set-last (p ∷ ps) x y = ap (◌∷◌ p) (set-last ps x y)

module _ (env : Environment) (all : AllConnect env) (host name : Bytes) (capacity : ℕ)
    (ps : List Pool) (p : Proxy) where
  -- The proxy while the last pool is filled.
  abbrev pub filling : List ℕ → Proxy
  filling items = record p { pools = ps ++ pool_of name capacity items ∷ [] }

  deref-filling :
      (items : List ℕ) → deref (some (length ps)) (filling items) ≡ ok (pool_of name capacity items)
  unfolding deref
  deref-filling items = rw (get_elem-last ps (pool_of name capacity items), deref) refl

  add-pool_of :
      (items : List ℕ) (opened : ℕ)
      → length items < capacity
      → Pool.add (pool_of name capacity items) opened
        ≡ ok (pool_of name capacity (items ++ opened ∷ []))
  unfolding Pool.add Channels.send
  add-pool_of items opened h = rw (lt→ltb (length items) capacity h, Pool.add) refl

  add_connection-filling :
      (again : ℕ → Proxy → Outcome (Option Progress)) (opened : ℕ) (items : List ℕ) (c : Conn)
      → length items < capacity
      → add_connection again (length ps) opened (filling items) (some c)
        ≡ again (suc opened) (filling (items ++ opened ∷ []))
  unfolding add_connection
  add_connection-filling again opened items c h =
      ap
        (λ o. o >>= λ pool. Pool.add pool opened >>= λ pool.
          again (suc opened) (store (length ps) pool (filling items)))
        (deref-filling items)
      ∙ ap (λ o. o >>= λ pool. again (suc opened) (store (length ps) pool (filling items)))
          (add-pool_of items opened h)
      ∙ ap (λ (pools : List Pool). again (suc opened) (record p { pools = pools }))
          (set-last ps (pool_of name capacity items) (pool_of name capacity (items ++ opened ∷ [])))

  pub fill_pool-filling :
      (n opened : ℕ) (items : List ℕ)
      → length items + n ≤ capacity
      → fill_pool env host (length ps) n opened (filling items)
        ≡ ok (some (opened + n, filling (items ++ numbers opened n)))
  unfolding fill_pool
  fill_pool-filling zero opened items h =
      ap (λ k. ok (some (k, filling items))) (omega arith)
      ∙ ap (λ items. ok (some (opened + 0, filling items))) (sym (append-nil items))
  fill_pool-filling (suc n) opened items h =
      let (c, e, bytes) = all opened host in
      let (c', f) = log_in_total env c bytes in
      rw (e, fill_pool)
        (rw (f, fill_pool)
          (add_connection-filling (fill_pool env host (length ps) n) opened items c' (omega arith)
            ∙ fill_pool-filling n (suc opened) (items ++ opened ∷ [])
                (omega (arith, length-append items (opened ∷ [])))
            ∙ ap (λ k. ok (some (k, filling ((items ++ opened ∷ []) ++ numbers (suc opened) n))))
                (omega arith)
            ∙ ap (λ items. ok (some (opened + suc n, filling items)))
                (append_assoc items (opened ∷ []) (numbers (suc opened) n))))
