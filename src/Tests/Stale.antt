-- ===== src/Tests/Stale.antt =====
-- Concrete sessions of a client that still remembers a connection which it has returned, or that is
-- gone inside a block.
use crunchy_proxy.Go.{ok, ◌>>=◌, codes}
use crunchy_proxy.Go.Channels.{send, receive}
use crunchy_proxy.Pool.{Pool}
use crunchy_proxy.Pool
use crunchy_proxy.Prelude.{ℕ, ◌+◌, ◌≡◌, refl, inl, inr, true, some, List, [], ◌∷◌, arith}
use crunchy_proxy.Proxy.Annotation.{Annotations, no_annotations}
use crunchy_proxy.Proxy.Handler.{
  new_handler, next_connection, give_pool_back, step, handler_at, on_next, on_return_pool,
  receiving, serving, gone, on_answered, give_up_backend, Handler, query, answered, hang_up,
  handler_step, on_query, needs_backend, note_annotations,
}
use crunchy_proxy.Proxy.Ownership.Reuse.{IsStale, stale_query, stale_end_copies}
use crunchy_proxy.Proxy.Ownership.Lost.{hang_up_loses}
use crunchy_proxy.Proxy.Ownership.Runs.{OrderlyRun, done, more, total_weight}
use crunchy_proxy.Proxy.Ownership.Safety.{counts_pair, counts_connection}
use crunchy_proxy.Proxy.Ownership.Weights.{pools_weight}
use crunchy_proxy.Proxy.Routing.{
  get_pool, return_pool, next_backend, return_backend, Proxy, deref, count_query,
}
use crunchy_proxy.Tests.Sessions.{
  pool, proxy, served, busy, state, started_state, fetching, fetched,
}

-- A client that has had a query answered.
abbrev stale : Handler
stale = record busy { phase = receiving }

stale-IsStale : IsStale stale 0 0
stale-IsStale = record {
  is_receiving = refl;
  no_block = refl;
  not_at_end = refl;
  pool_is = refl;
  backend_is = refl;
}

abbrev end_annotations : Annotations
end_annotations = record no_annotations { finish = true }

answers_stale :
    handler_step serving answered busy served
    ≡ ok (stale, record (proxy (0 ∷ []) (0 ∷ [])) { stats = (codes "m", 1) ∷ [] })
unfolding handler_step on_answered give_up_backend return_backend deref Pool.give_back send
answers_stale = refl

stale_query_example :
    (h : Handler) × (p : Proxy) × (handler_step receiving
        (query end_annotations)
        stale
        (record (proxy (0 ∷ []) (0 ∷ [])) { stats = (codes "m", 1) ∷ [] })
      ≡ ok (h, p))
    × (h.phase ≡ serving)
    × (h.backend ≡ some 0)
    × (pools_weight (counts_pair 0 0) p.pools ≡ pools_weight (counts_pair 0 0) served.pools + 1)
stale_query_example =
    stale_query end_annotations busy served 0 0 refl refl refl answers_stale (inr refl)

-- With room in the pool, connection 0 is in it twice afterwards.
abbrev roomy : List ℕ → Proxy
roomy items = record (proxy [] (0 ∷ [])) {
  pools = record (pool items) { connections = record { items = items; cap = 2 } } ∷ [];
}

roomy_end :
    (handler_step receiving (query end_annotations) stale (roomy (0 ∷ [])) >>= λ q.
    handler_step serving answered q.0 q.1)
    ≡ ok (stale, record (roomy (0 ∷ 0 ∷ [])) { stats = (codes "m", 1) ∷ [] })
unfolding handler_step on_query needs_backend note_annotations on_answered give_up_backend
    return_backend deref Pool.give_back send count_query
roomy_end = refl

stale_end_copies_example :
    pools_weight (counts_connection 0) (roomy (0 ∷ 0 ∷ [])).pools
    ≡ pools_weight (counts_connection 0) (roomy (0 ∷ [])).pools + counts_connection 0 0 0
stale_end_copies_example =
    stale_end_copies end_annotations stale (roomy (0 ∷ [])) 0 0 stale-IsStale refl refl
      (counts_connection 0) roomy_end

-- A client that opens a block with its first query, and is gone behind the answer.
abbrev start_annotations : Annotations
start_annotations = record no_annotations { start = true }

abbrev in_block : Handler → Handler
in_block h = record h { statement_block = true }

opens :
    step 0 (query start_annotations) started_state
    ≡ ok (state (proxy (0 ∷ []) []) (in_block fetching))
unfolding step handler_at handler_step on_query needs_backend note_annotations get_pool receive
opens = refl

fetches :
    step 0 next_connection (state (proxy (0 ∷ []) []) (in_block fetching))
    ≡ ok (state (proxy [] []) (in_block fetched))
unfolding step handler_at handler_step on_next next_backend deref Pool.next receive
fetches = refl

gives :
    step 0 give_pool_back (state (proxy [] []) (in_block fetched))
    ≡ ok (state served (in_block busy))
unfolding step handler_at handler_step on_return_pool deref return_pool send count_query
gives = refl

is_answered : step 0 answered (state served (in_block busy)) ≡ ok (state served (in_block stale))
unfolding step handler_at handler_step on_answered
is_answered = refl

hangs :
    step 0 hang_up (state served (in_block stale))
    ≡ ok (state served (in_block (record stale { phase = gone })))
unfolding step handler_at handler_step
hangs = refl

block_run : OrderlyRun started_state (state served (in_block stale))
block_run =
    more {i = 0} {a = answered}
      (more {i = 0} {a = give_pool_back}
        (more {i = 0} {a = next_connection}
          (more {i = 0} {a = query start_annotations} done (record {
            handler = new_handler;
            found = refl;
            in_order = inr (inl refl);
            steps = opens;
          }))
          (record { handler = in_block fetching; found = refl; in_order = tt; steps = fetches }))
        (record { handler = in_block fetched; found = refl; in_order = tt; steps = gives }))
      (record { handler = in_block busy; found = refl; in_order = tt; steps = is_answered })

hang_up_loses_example :
    total_weight (counts_connection 0) (state served (in_block (record stale { phase = gone }))) ≡ 0
hang_up_loses_example =
    hang_up_loses {s = started_state} {t = state served (in_block stale)}
      {u = state served (in_block (record stale { phase = gone }))}
      {v = state served (in_block (record stale { phase = gone }))} 0 0 (in_block stale)
      (refl, (refl, tt)) (omega arith) block_run refl refl refl refl hangs done
