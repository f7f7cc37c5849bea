-- ===== src/Proxy/Handler/Answered.antt =====
-- What follows the exchange of a query outside a block of statements.
use crunchy_proxy.Go.{ok, ◌>>=◌}
use crunchy_proxy.Prelude.{ℕ, ◌≡◌, false, some, arith}
use crunchy_proxy.Proxy.Handler.{Handler, receiving, on_answered, give_up_backend}
use crunchy_proxy.Proxy.Routing.{Proxy, return_backend}

-- The connection is given up.
pub on_answered-free :
    (h : Handler) (p : Proxy)
    → h.statement_block ≡ false
    → on_answered h p
      ≡ (give_up_backend h p >>= λ p. ok (record h { phase = receiving; at_end = false }, p))
unfolding on_answered
on_answered-free h p free = ground arith

-- To the pool that the handler remembers.
pub give_up_backend-return_backend :
    (h : Handler) (p : Proxy) (k c : ℕ) {p' : Proxy}
    → h.cp ≡ some k
    → h.backend ≡ some c
    → give_up_backend h p ≡ ok p'
    → return_backend k c p ≡ ok p'
unfolding give_up_backend
give_up_backend-return_backend h p k c pool backend e = rw (pool, backend, give_up_backend) at e
