-- ===== src/Proxy/Ownership/Manager.antt =====
-- The handlers and the pools as a manager of connections that hides the order of the pools and the
-- phases of the handlers: a connection is free in its pool, or owned by one client.
pub mod Refined
use native.Mathlib.Decide.{ℕ_discrete}
use crunchy_proxy.Go.{ok}
use crunchy_proxy.Pool.{Pool}
use crunchy_proxy.Prelude.{
  ℕ, zero, suc, ◌+◌, ◌≡◌, ◌≢◌, ◌⊎◌, inl, inr, refl, ap, sym, subst, ◌∙◌, Bool, true, false, List,
  [], ◌∷◌, Option, none, some, arith, get_elem?, set, All, All-get_elem?, ◌==◌, ◌&&◌, if◌then◌else◌,
  Option-cases,
}
use crunchy_proxy.Proxy.Annotation.{Annotations}
use crunchy_proxy.Proxy.Handler.{
  note_annotations, needs_backend, give_up_backend, Phase, receiving, took_pool, took_backend,
  serving, gone, Handler, Action, query, next_connection, give_pool_back, answered, other_message,
  hang_up, on_query, on_next, on_return_pool, on_answered, handler_step, System, put, step,
}
use crunchy_proxy.Proxy.Ownership.Runs.{
  OrderlyStep, OrderlyRun, done, more, OrderlyRun-Inv, step-found,
}
use crunchy_proxy.Proxy.Ownership.Safety.{counts_pair, IsStart, IsStart-Inv}
use crunchy_proxy.Proxy.Ownership.Steps.{IsOrderly, PhaseInv, Inv, Keeps, handler_step-Keeps}
use crunchy_proxy.Proxy.Ownership.Weights.{Weight, pools_weight, pair_weight, held_weight}
use crunchy_proxy.Proxy.Routing.{Proxy}

-- How often each connection is free in each pool, and what each client owns.
pub record Manager : Type 0 where
  pub free : ℕ → ℕ → ℕ
  pub owned : ℕ → Option (ℕ × ℕ)

-- The connection of pool `k` that goes from the free ones of `m` to the client `i` of `m'`.
pub record Transfer (i k c : ℕ) (m m' : Manager) : Type 0 where
  pub owns_none : m.owned i ≡ none
  pub owns : m'.owned i ≡ some (k, c)
  pub others : (j : ℕ) → j ≢ i → m'.owned j ≡ m.owned j
  pub taken : (k' c' : ℕ) → m'.free k' c' + counts_pair k' c' k c ≡ m.free k' c'

-- A manager hands out a free connection to a client that owns none, takes one back from its owner, or
-- does nothing.
pub data Allowed (m m' : Manager) : Type 0 where
  nothing :
      ((i : ℕ) → m'.owned i ≡ m.owned i) → ((k c : ℕ) → m'.free k c ≡ m.free k c) → Allowed m m'
  acquire : (i k c : ℕ) → Transfer i k c m m' → Allowed m m'
  release : (i k c : ℕ) → Transfer i k c m' m → Allowed m m'

pub data Trace (m : Manager) : Manager → Type 0 where
  start : Trace m m
  later : {m' m'' : Manager} → Trace m m' → Allowed m' m'' → Trace m m''

-- What a handler has to return.
abbrev pub pair : Option ℕ → Option ℕ → Option (ℕ × ℕ)
pair (some k) (some c) = some (k, c)
pair _ _ = none

abbrev pub held : Phase → Bool → Option (ℕ × ℕ) → Option (ℕ × ℕ)
held receiving block x = if block then x else none
held took_pool block x = none
held took_backend block x = x
held serving block x = x
held gone block x = none

abbrev pub holding : Handler → Option (ℕ × ℕ)
holding h = held h.phase h.statement_block (pair h.cp h.backend)

abbrev pub holding_at : List Handler → ℕ → Option (ℕ × ℕ)
holding_at hs i = elim (get_elem? hs i) [ none ↦ none | some h ↦ holding h ]

-- The manager that a system is.
abbrev pub manager : System → Manager
manager s = record {
  free = λ k c. pools_weight (counts_pair k c) s.proxy.pools;
  owned = holding_at s.handlers;
}
