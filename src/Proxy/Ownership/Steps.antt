-- ===== src/Proxy/Ownership/Steps.antt =====
-- One action of one handler, in a session whose statement blocks are opened and closed in order.
use crunchy_proxy.Go.{ok}
use crunchy_proxy.Prelude.{◌+◌, ◌≡◌, ◌≢◌, ◌⊎◌, true, false, none, arith}
use crunchy_proxy.Proxy.Annotation.{Annotations}
use crunchy_proxy.Proxy.Handler.{
  note_annotations, needs_backend, give_up_backend, Phase, receiving, took_pool, took_backend,
  serving, gone, Handler, Action, query, next_connection, give_pool_back, answered, other_message,
  hang_up, on_query, on_next, on_return_pool, on_answered, handler_step,
}
use crunchy_proxy.Proxy.Ownership.Weights.{
  Weight, pools_weight, held_weight, next_backend-weight, return_backend-weight,
}
use crunchy_proxy.Proxy.Routing.Moves.{get_pool-pools, return_pool-pools}
use crunchy_proxy.Proxy.Routing.{Proxy}

-- What the client may do: a query opens or closes a block only inside a block or as the first query
-- of the session, and the session does not end inside a block.
abbrev pub IsOrderly : Action → Handler → Type 0
IsOrderly (query a) h =
    (h.statement_block ≡ true) ⊎ (h.cp ≡ none) ⊎ ((a.start ≡ false) × (a.finish ≡ false))
IsOrderly hang_up h = h.statement_block ≡ false
IsOrderly _ h = Unit {0}

-- The variables that a phase relies on.
abbrev pub PhaseInv : Phase → Handler → Type 0
PhaseInv receiving h =
    (h.at_end ≡ false) × (h.statement_block ≡ true → (h.cp ≢ none) × (h.backend ≢ none))
PhaseInv took_pool h = (h.statement_block ≡ true → h.at_end ≡ false) × (h.cp ≢ none)
PhaseInv took_backend h =
    (h.statement_block ≡ true → h.at_end ≡ false) × (h.cp ≢ none) × (h.backend ≢ none)
PhaseInv serving h =
    (h.statement_block ≡ true → h.at_end ≡ false) × (h.cp ≢ none) × (h.backend ≢ none)
PhaseInv gone h = Unit {0}

abbrev pub Inv : Handler → Type 0
Inv h = PhaseInv h.phase h

-- A step that keeps the weight of the proxy's pools and the handler together, and the invariant.
pub record Keeps (w : Weight) (h : Handler) (p : Proxy) (h' : Handler) (p' : Proxy) : Type 0 where
  pub weight : pools_weight w p'.pools + held_weight w h' ≡ pools_weight w p.pools + held_weight w h
  pub inv : Inv h'

on_query-Keeps :
    (w : Weight) (a : Annotations) (h : Handler) (p : Proxy) {h' : Handler} {p' : Proxy}
    → h.phase ≡ receiving
    → PhaseInv receiving h
    → IsOrderly (query a) h
    → on_query a h p ≡ ok (h', p')
    → Keeps w h p h' p'
unfolding on_query note_annotations needs_backend
on_query-Keeps w a h p e v o s = grind (arith, get_pool-pools)

on_next-Keeps :
    (w : Weight) (h : Handler) (p : Proxy) {h' : Handler} {p' : Proxy}
    → h.phase ≡ took_pool
    → PhaseInv took_pool h
    → on_next h p ≡ ok (h', p')
    → Keeps w h p h' p'
unfolding on_next
on_next-Keeps w h p e v s = grind (arith, next_backend-weight)

on_return_pool-Keeps :
    (w : Weight) (h : Handler) (p : Proxy) {h' : Handler} {p' : Proxy}
    → h.phase ≡ took_backend
    → PhaseInv took_backend h
    → on_return_pool h p ≡ ok (h', p')
    → Keeps w h p h' p'
unfolding on_return_pool
on_return_pool-Keeps w h p e v s = grind (arith, return_pool-pools)

on_answered-Keeps :
    (w : Weight) (h : Handler) (p : Proxy) {h' : Handler} {p' : Proxy}
    → h.phase ≡ serving
    → PhaseInv serving h
    → on_answered h p ≡ ok (h', p')
    → Keeps w h p h' p'
unfolding on_answered give_up_backend
on_answered-Keeps w h p e v s = grind (arith, return_backend-weight)

-- Every action that an orderly session takes.
pub handler_step-Keeps :
    (w : Weight) (f : Phase) (a : Action) (h : Handler) (p : Proxy) {r : Handler × Proxy}
    → h.phase ≡ f
    → PhaseInv f h
    → IsOrderly a h
    → handler_step f a h p ≡ ok r
    → Keeps w h p r.0 r.1
unfolding handler_step
handler_step-Keeps w receiving (query a) h p e v o s = on_query-Keeps w a h p e v o s
handler_step-Keeps w receiving other_message h p e v o s = ground arith
handler_step-Keeps w receiving hang_up h p e v o s = ground arith
handler_step-Keeps w took_pool next_connection h p e v o s = on_next-Keeps w h p e v s
handler_step-Keeps w took_backend give_pool_back h p e v o s = on_return_pool-Keeps w h p e v s
handler_step-Keeps w serving answered h p e v o s = on_answered-Keeps w h p e v s
handler_step-Keeps w _ _ h p e v o s = cc
