-- ===== src/Proxy/Ownership/Lost.antt =====
-- A session that ends inside a statement block, and all that the other clients do afterwards.
use crunchy_proxy.Go.{ok, ok-injective}
use crunchy_proxy.Prelude.{
  ℕ, ◌≤◌, ◌≡◌, sym, ap, subst, ◌∙◌, inr, true, some, arith, get_elem?, All, All-set,
}
use crunchy_proxy.Proxy.Handler.{System, Handler, receiving, gone, hang_up, handler_step, step, put}
use crunchy_proxy.Proxy.Ownership.Runs.{
  total_weight, OrderlyRun, OrderlyRun-Inv, OrderlyRun-total_weight, step-found,
}
use crunchy_proxy.Proxy.Ownership.Safety.{
  IsStart, IsStart-Inv, IsUsing, IsUsing-weight, counts_connection, held-le,
}
use crunchy_proxy.Proxy.Ownership.Steps.{Inv}
use crunchy_proxy.Proxy.Ownership.Weights.{Weight, handlers_weight-set}
use crunchy_proxy.Proxy.Routing.{Proxy}

hangs_up :
    (h : Handler) (p : Proxy) {r : Handler × Proxy}
    → h.phase ≡ receiving
    → handler_step h.phase hang_up h p ≡ ok r
    → r ≡ (record h { phase = gone }, p)
unfolding handler_step
hangs_up h p f e = sym (ok-injective (rw f at e))

-- In an orderly execution from a state with connection `c` at most once in the pools, a handler has a
-- statement block open on `c` and its client is gone. Then, whatever the handlers do in order from
-- there on, `c` is in no pool and with no handler: it is never used again.
pub hang_up_loses :
    {s t u v : System} (i c : ℕ) (h : Handler)
    → IsStart s
    → total_weight (counts_connection c) s ≤ 1
    → OrderlyRun s t
    → get_elem? t.handlers i ≡ some h
    → h.phase ≡ receiving
    → h.statement_block ≡ true
    → h.backend ≡ some c
    → step i hang_up t ≡ ok u
    → OrderlyRun u v
    → total_weight (counts_connection c) v ≡ 0
hang_up_loses {s} {t} {u} {v} i c h a once r found f block uses e later =
    OrderlyRun-total_weight w left later ∙ none_left
  where
    w : Weight
    w = counts_connection c

    before : All Inv t.handlers
    before = OrderlyRun-Inv (IsStart-Inv s.handlers a) r

    left_by : u ≡ put t i (record h { phase = gone }, t.proxy)
    left_by =
        let (q, taken, same) = step-found i hang_up t h found e in
        same ∙ ap (put t i) (hangs_up h t.proxy f taken)

    left : All Inv u.handlers
    left =
        subst (λ (u : System). All Inv u.handlers) (sym left_by)
          (All-set Inv t.handlers i (record h { phase = gone }) before tt)

    using : IsUsing t i c
    using = record { handler = h; found = found; holds = inr (f, block); uses = uses }

    none_left : total_weight w u ≡ 0
    none_left =
        ap (total_weight w) left_by
        ∙ omega (
          arith,
          once,
          OrderlyRun-total_weight w (IsStart-Inv s.handlers a) r,
          IsUsing-weight t i c before using,
          held-le w t.handlers i found,
          handlers_weight-set w t.handlers i h (record h { phase = gone }) found,
        )
