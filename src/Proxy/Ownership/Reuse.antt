-- ===== src/Proxy/Ownership/Reuse.antt =====
-- What happens to connections in sessions that are not orderly.
use crunchy_proxy.Go.Channels.{send}
use crunchy_proxy.Go.{Outcome, ok, panic, blocked, ◌>>=◌, >>=-eq-ok, ok-injective}
use crunchy_proxy.Pool.{Pool, give_back}
use crunchy_proxy.Prelude.{
  ℕ, ◌+◌, ◌≤◌, ◌≡◌, refl, sym, ap, subst, ==_refl, ◌∙◌, ◌⊎◌, true, false, some, arith, get_elem?,
  length,
}
use crunchy_proxy.Proxy.Annotation.{Annotations}
use crunchy_proxy.Proxy.Handler.{
  needs_backend, give_up_backend, on_query, on_answered, receiving, serving, Handler, query,
  answered, handler_step, note_annotations,
}
use crunchy_proxy.Proxy.Handler.Answered.{on_answered-free, give_up_backend-return_backend}
use crunchy_proxy.Proxy.Ownership.Safety.{counts_pair}
use crunchy_proxy.Proxy.Ownership.Weights.{Weight, pools_weight, return_backend-weight}
use crunchy_proxy.Proxy.Routing.{Proxy, count_query, return_backend, deref}

-- A handler between queries, outside a statement block, that still remembers the pool and the
-- connection of its last query.
pub record IsStale (h : Handler) (k c : ℕ) : Type 0 where
  pub is_receiving : h.phase ≡ receiving
  pub no_block : h.statement_block ≡ false
  pub not_at_end : h.at_end ≡ false
  pub pool_is : h.cp ≡ some k
  pub backend_is : h.backend ≡ some c

-- Such a handler serves a query that opens or closes a block on that connection, and takes nothing
-- from any pool.
IsStale-serves :
    (a : Annotations) (h : Handler) (p : Proxy) (k c : ℕ)
    → IsStale h k c
    → (a.start ≡ true) ⊎ (a.finish ≡ true)
    → (h' : Handler) × (p' : Proxy) × (handler_step receiving (query a) h p ≡ ok (h', p'))
      × (h'.phase ≡ serving)
      × (h'.backend ≡ some c)
      × (p'.pools ≡ p.pools)
unfolding handler_step on_query note_annotations needs_backend on_answered give_up_backend
IsStale-serves a h p k c s e = (
  record (note_annotations a h) { phase = serving },
  record p { stats = count_query h.node_name p.stats },
  ground arith,
  refl,
  ground arith,
  refl,
)

-- Behind an answer outside a block, the connection is in its pool once more, and remembered.
answered-IsStale :
    (h : Handler) (p : Proxy) (k c : ℕ) {h' : Handler} {p' : Proxy}
    → h.statement_block ≡ false
    → h.cp ≡ some k
    → h.backend ≡ some c
    → handler_step serving answered h p ≡ ok (h', p')
    → IsStale h' k c × ((w : Weight) → pools_weight w p'.pools ≡ pools_weight w p.pools + w k c)
unfolding handler_step give_up_backend
answered-IsStale h p k c f pool backend e =
    let (q, given, done) =
      >>=-eq-ok (give_up_backend h p) (λ q. ok (record h { phase = receiving; at_end = false }, q))
        (sym (on_answered-free h p f) ∙ e) in
    let returned : return_backend k c p ≡ ok q =
      give_up_backend-return_backend h p k c pool backend given in
    let r = ok-injective done in
    (
      subst (λ (r : Handler × Proxy). IsStale r.0 k c) r
          (record {
            is_receiving = refl;
            no_block = f;
            not_at_end = refl;
            pool_is = pool;
            backend_is = backend;
          }),
      λ w.
          subst (λ (r : Handler × Proxy). pools_weight w r.1.pools ≡ pools_weight w p.pools + w k c)
            r (return_backend-weight w k c p returned),
    )

-- A handler that has a query answered outside a block returns its connection `c` to pool `k`. When its
-- next query opens or closes a block, the handler exchanges messages with `c` again, while `c` lies in
-- pool `k` for any other handler to take: once more often than before the answer.
pub stale_query :
    (a : Annotations) (h : Handler) (p : Proxy) (k c : ℕ) {h' : Handler} {p' : Proxy}
    → h.statement_block ≡ false
    → h.cp ≡ some k
    → h.backend ≡ some c
    → handler_step serving answered h p ≡ ok (h', p')
    → (a.start ≡ true) ⊎ (a.finish ≡ true)
    → (h'' : Handler) × (p'' : Proxy) × (handler_step receiving (query a) h' p' ≡ ok (h'', p''))
      × (h''.phase ≡ serving)
      × (h''.backend ≡ some c)
      × (pools_weight (counts_pair k c) p''.pools ≡ pools_weight (counts_pair k c) p.pools + 1)
stale_query a h p k c {h'} {p'} f pool backend e starts =
    let (stale, weight) = answered-IsStale h p k c f pool backend e in
    let (h'', p'', s, ph, b, same) = IsStale-serves a h' p' k c stale starts in
    (
      h'',
      p'',
      s,
      ph,
      b,
      ap (pools_weight (counts_pair k c)) same
          ∙ weight (counts_pair k c)
          ∙ ap (λ n. pools_weight (counts_pair k c) p.pools + n) (rw (==_refl k, ==_refl c) refl),
    )

-- the weight of the pools that an outcome leaves
abbrev outcome_weight : Weight → Outcome (Handler × Proxy) → ℕ
outcome_weight w (ok r) = pools_weight w r.1.pools
outcome_weight w panic = 0
outcome_weight w blocked = 0

module _ (a : Annotations) (h : Handler) (p : Proxy) (k c : ℕ) (s : IsStale h k c)
    (n : a.start ≡ false) (e : a.finish ≡ true) where
  stale_end_steps :
      (handler_step receiving (query a) h p >>= λ q. handler_step serving answered q.0 q.1) ≡ (
        return_backend k c (record p { stats = count_query h.node_name p.stats }) >>= λ p'.
        ok (record (note_annotations a h) { phase = receiving; at_end = false }, p'))
  unfolding handler_step on_query note_annotations needs_backend on_answered give_up_backend
  stale_end_steps = ground arith

  -- When a handler outside a block that still remembers the connection `c` of pool `k` from its
  -- last query is sent a query that closes a block, and the query is answered and the handler goes
  -- on, then `c` has been returned once more: by any weight, the pools hold what they held before
  -- and `c` in pool `k`.
  pub stale_end_copies :
      (w : Weight) {r : Handler × Proxy}
      → (handler_step receiving (query a) h p >>= λ q. handler_step serving answered q.0 q.1) ≡ ok r
      → pools_weight w r.1.pools ≡ pools_weight w p.pools + w k c
  stale_end_copies w q =
      let (p', returned, done) =
        >>=-eq-ok (return_backend k c (record p { stats = count_query h.node_name p.stats }))
          (λ p'. ok (record (note_annotations a h) { phase = receiving; at_end = false }, p'))
          (sym stale_end_steps ∙ q) in
      omega (
        arith,
        return_backend-weight w k c _ returned,
        ap (λ (o : Outcome (Handler × Proxy)). outcome_weight w o) done,
      )

  -- When a handler outside a block that still remembers the connection of its last query is sent a
  -- query that closes a block, and the pool of that connection is full, then the handler waits
  -- behind the answer: the second return of the connection blocks.
  pub stale_end_blocks :
      (pool : Pool)
      → get_elem? p.pools k ≡ some pool
      → pool.connections.cap ≤ length pool.connections.items
      → (handler_step receiving (query a) h p >>= λ q. handler_step serving answered q.0 q.1)
        ≡ blocked
  unfolding return_backend give_back send deref
  stale_end_blocks pool hit full = stale_end_steps ∙ ground arith
