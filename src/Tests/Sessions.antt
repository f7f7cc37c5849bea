-- ===== src/Tests/Sessions.antt =====
-- Concrete sessions: two clients of a proxy with one pool.
use crunchy_proxy.Go.{ok, codes, equal}
use crunchy_proxy.Go.Channels.{send, receive}
use crunchy_proxy.Pool.{Pool}
use crunchy_proxy.Pool
use crunchy_proxy.Prelude.{ℕ, ◌≡◌, refl, inl, inr, false, not, some, List, [], ◌∷◌}
use crunchy_proxy.Proxy.Annotation.{no_annotations}
use crunchy_proxy.Proxy.Handler.{
  took_pool, took_backend, serving, Handler, new_handler, Action, query, next_connection,
  give_pool_back, answered, handler_step, handler_at, on_query, on_next, on_return_pool,
  needs_backend, note_annotations, System, step, run,
}
use crunchy_proxy.Proxy.Ownership.Reads.{last_read}
use crunchy_proxy.Proxy.Setup.Owners.{node_of}
use crunchy_proxy.Proxy.Ownership.Manager.Refined.{OrderlyRun-Trace}
use crunchy_proxy.Proxy.Ownership.Manager.{Trace, manager}
use crunchy_proxy.Proxy.Ownership.Runs.{OrderlyRun, done, more, total_weight}
use crunchy_proxy.Proxy.Ownership.Safety.{IsUsing, counts_pair, OrderlyRun-conserves}
use crunchy_proxy.Proxy.Setup.Ready.{new_proxy-built}
use crunchy_proxy.Proxy.Setup.Served.{master_at, new_proxy-routes, new_proxy-returns}
use crunchy_proxy.Proxy.Setup.{new_proxy}
use crunchy_proxy.Tests.Login.{env, env-AllConnect, master_node}
use crunchy_proxy.Proxy.Routing.{Proxy, get_pool, return_pool, next_backend, deref, count_query}

abbrev pub pool : List ℕ → Pool
pool items = record {
  connections = record { items = items; cap = 1 };
  name = codes "m";
  capacity = 1;
}

abbrev pub proxy : List ℕ → List ℕ → Proxy
proxy items masters = record {
  pools = pool items ∷ [];
  write_pools = record { items = masters; cap = 1 };
  read_pools = record { items = []; cap = 1 };
  stats = [];
}

abbrev pub served : Proxy
served = record (proxy [] (0 ∷ [])) { stats = (codes "m", 1) ∷ [] }

abbrev pub fetching : Handler
fetching = record new_handler { phase = took_pool; cp = some 0 }

abbrev pub fetched : Handler
fetched = record fetching { phase = took_backend; backend = some 0 }

abbrev pub busy : Handler
busy = record fetched { phase = serving; node_name = codes "m" }

abbrev pub state : Proxy → Handler → System
state p h = record { proxy = p; handlers = h ∷ new_handler ∷ [] }

pub first_step :
    step 0 (query no_annotations) (state (proxy (0 ∷ []) (0 ∷ [])) new_handler)
    ≡ ok (state (proxy (0 ∷ []) []) fetching)
unfolding step handler_at handler_step on_query needs_backend note_annotations get_pool receive
first_step = refl

pub second_step :
    step 0 next_connection (state (proxy (0 ∷ []) []) fetching) ≡ ok (state (proxy [] []) fetched)
unfolding step handler_at handler_step on_next next_backend deref Pool.next receive
second_step = refl

pub third_step : step 0 give_pool_back (state (proxy [] []) fetched) ≡ ok (state served busy)
unfolding step handler_at handler_step on_return_pool deref return_pool send count_query
third_step = refl

abbrev pub started_state : System
started_state = state (proxy (0 ∷ []) (0 ∷ [])) new_handler

abbrev pub serving_state : System
serving_state = state served busy

first_run : OrderlyRun started_state (state (proxy (0 ∷ []) []) fetching)
first_run =
    more {i = 0} {a = query no_annotations} done (record {
      handler = new_handler;
      found = refl;
      in_order = inr (inl refl);
      steps = first_step;
    })

second_run : OrderlyRun started_state (state (proxy [] []) fetched)
second_run =
    more {i = 0} {a = next_connection} first_run
      (record { handler = fetching; found = refl; in_order = tt; steps = second_step })

whole_run : OrderlyRun started_state serving_state
whole_run =
    more {i = 0} {a = give_pool_back} second_run
      (record { handler = fetched; found = refl; in_order = tt; steps = third_step })

pub busy-IsUsing : IsUsing serving_state 0 0
busy-IsUsing = record { handler = busy; found = refl; holds = inl refl; uses = refl }

OrderlyRun-conserves_example :
    total_weight (counts_pair 0 0) serving_state ≡ total_weight (counts_pair 0 0) started_state
OrderlyRun-conserves_example =
    OrderlyRun-conserves {s = started_state} {t = serving_state} 0 0 (refl, (refl, tt)) whole_run

abbrev schedule : List (ℕ × Action)
schedule = (0, query no_annotations) ∷ (0, next_connection) ∷ []

schedule-runs : run schedule started_state ≡ ok (state (proxy [] []) fetched)
unfolding run
schedule-runs = rw first_step (rw second_step refl)

pub set_up :
    new_proxy env 1 ((codes "m", master_node) ∷ []) ≡ ok (some (1, proxy (0 ∷ []) (0 ∷ [])))
unfolding equal
set_up = new_proxy-built env 1 ((codes "m", master_node) ∷ []) env-AllConnect

new_proxy-routes_example :
    (c : ℕ) × (fetched.backend ≡ some c)
    × (master_at ((codes "m", master_node) ∷ []) (node_of 1 0 ((codes "m", master_node) ∷ []) c)
        ≡ not (last_read 0 false schedule))
new_proxy-routes_example =
    new_proxy-routes env 1 ((codes "m", master_node) ∷ []) {opened = 1}
      {p = proxy (0 ∷ []) (0 ∷ [])} env-AllConnect set_up 2 schedule 0
      {t = state (proxy [] []) fetched} {h = fetched} schedule-runs refl refl

new_proxy-returns_example : (u : System) × (step 0 answered serving_state ≡ ok u)
new_proxy-returns_example =
    new_proxy-returns env 1 ((codes "m", master_node) ∷ []) {opened = 1}
      {p = proxy (0 ∷ []) (0 ∷ [])} env-AllConnect set_up 2 0 {t = serving_state} {h = busy}
      whole_run refl refl

-- The first handler comes to serve the query in its third step.
abbrev pub whole_schedule : List (ℕ × Action)
whole_schedule = (0, query no_annotations) ∷ (0, next_connection) ∷ (0, give_pool_back) ∷ []

pub whole_schedule-runs : run whole_schedule started_state ≡ ok serving_state
unfolding run
whole_schedule-runs = rw first_step (rw second_step (rw third_step refl))

OrderlyRun-Trace_example : Trace (manager started_state) (manager serving_state)
OrderlyRun-Trace_example =
    OrderlyRun-Trace {s = started_state} {t = serving_state} (refl, (refl, tt)) whole_run
