-- ===== src/Proxy/Handler.antt =====
-- proxy/proxy.go, `HandleConnection` from its message loop on, as steps between which the other
-- handlers run. A step ends where the handler has used a channel that it shares with them; the
-- exchange of messages for one query uses none, and is part of the phase `serving`.
pub mod Answered
use crunchy_proxy.Go.{Bytes, Outcome, ok, panic, blocked, ◌>>=◌}
use crunchy_proxy.Prelude.{
  ℕ, Bool, true, false, not, ◌&&◌, ◌||◌, List, [], ◌∷◌, Option, none, some, get_elem?, set,
  if◌then◌else◌,
}
use crunchy_proxy.Proxy.Annotation.{Annotations}
use crunchy_proxy.Proxy.Routing.{
  Proxy, count_query, get_pool, return_pool, deref, next_backend, return_backend,
}

-- Where a handler stands: before `connect.Receive(client)`; between `getPool` and `Next`; between
-- `Next` and `returnPool`; with a backend chosen for the query; after the return of the function.
pub data Phase : Type 0 where
  receiving took_pool took_backend serving gone : Phase

-- The variables of `HandleConnection` that live across messages; `end` is `at_end`.
pub record Handler : Type 0 where
  pub phase : Phase
  pub statement_block : Bool
  pub cp : Option ℕ
  pub backend : Option ℕ
  pub read : Bool
  pub at_end : Bool
  pub node_name : Bytes

abbrev pub new_handler : Handler
new_handler = record {
  phase = receiving;
  statement_block = false;
  cp = none;
  backend = none;
  read = false;
  at_end = false;
  node_name = [];
}

-- The two `if`s on the annotations, and `read`.
unfoldable pub note_annotations : Annotations → Handler → Handler
note_annotations a h =
    if a.start
    then record h { statement_block = true; read = a.read }
    else if a.finish
    then record h { at_end = true; statement_block = false; read = a.read }
    else record h { read = a.read }

abbrev is_nil {ℓ} : {A : Type ℓ} → Option A → Bool
is_nil none = true
is_nil (some _) = false

-- `!statementBlock && !end || cp == nil || backend == nil`
unfoldable pub needs_backend : Handler → Bool
needs_backend h = not h.statement_block && not h.at_end || is_nil h.cp || is_nil h.backend

-- `p.Stats[nodeName] += 1`
abbrev pub serve : Handler → Proxy → Handler × Proxy
serve h p = (record h { phase = serving }, record p { stats = count_query h.node_name p.stats })

-- A query has come in: up to `getPool`, or to the exchange if the backend is kept.
unfoldable pub on_query : Annotations → Handler → Proxy → Outcome (Handler × Proxy)
on_query a h p =
    let h' = note_annotations a h in
    if needs_backend h'
    then (do r ← get_pool h'.read p; ok (record h' { phase = took_pool; cp = some r.0 }, r.1))
    else ok (serve h' p)

-- `backend = cp.Next()`
unfoldable pub on_next : Handler → Proxy → Outcome (Handler × Proxy)
on_next h p = elim h.cp [
  | none ↦ panic
  | some cp ↦ do
    r ← next_backend cp p
    ok (record h { phase = took_backend; backend = some r.0 }, r.1)
]

-- `nodeName = cp.Name`, `p.returnPool(cp, read)`, and the count
unfoldable pub on_return_pool : Handler → Proxy → Outcome (Handler × Proxy)
on_return_pool h p = elim h.cp [
  | none ↦ panic
  | some cp ↦ do
    pool ← deref (some cp) p
    p ← return_pool cp h.read p
    ok (serve (record h { node_name = pool.name }) p)
]

-- `cp.Return(backend)`
unfoldable pub give_up_backend : Handler → Proxy → Outcome Proxy
give_up_backend h p = elim h.cp [
  | none ↦ panic
  | some cp ↦ elim h.backend [ none ↦ panic | some backend ↦ return_backend cp backend p ]
]

-- What follows the exchange.
unfoldable pub on_answered : Handler → Proxy → Outcome (Handler × Proxy)
on_answered h p =
    if h.statement_block
    then ok (record h { phase = receiving }, p)
    else do p ← give_up_backend h p; ok (record h { phase = receiving; at_end = false }, p)

pub data Action : Type 0 where
  query : Annotations → Action
  next_connection : Action
  give_pool_back : Action
  answered : Action
  -- a message of another type, which the loop passes over
  other_message : Action
  -- a terminate message, the end of the stream, or an error
  hang_up : Action

-- An action that the phase does not allow is not taken: it counts as `blocked`.
unfoldable pub handler_step : Phase → Action → Handler → Proxy → Outcome (Handler × Proxy)
handler_step receiving (query a) h p = on_query a h p
handler_step receiving other_message h p = ok (h, p)
handler_step receiving hang_up h p = ok (record h { phase = gone }, p)
handler_step took_pool next_connection h p = on_next h p
handler_step took_backend give_pool_back h p = on_return_pool h p
handler_step serving answered h p = on_answered h p
handler_step _ _ h p = blocked

-- The proxy with the handlers of its clients.
pub record System : Type 0 where
  pub proxy : Proxy
  pub handlers : List Handler

abbrev pub put : System → ℕ → Handler × Proxy → System
put s i r = record s { handlers = set s.handlers i r.0; proxy = r.1 }

unfoldable pub handler_at : ℕ → System → Outcome Handler
handler_at i s = elim (get_elem? s.handlers i) [ none ↦ blocked | some h ↦ ok h ]

-- Handler `i` takes one action.
unfoldable pub step : ℕ → Action → System → Outcome System
step i a s = do h ← handler_at i s; r ← handler_step h.phase a h s.proxy; ok (put s i r)

-- An interleaving: which handler takes which action, in order.
unfoldable pub run : List (ℕ × Action) → System → Outcome System
run [] s = ok s
run ((i, a) ∷ schedule) s = do s ← step i a s; run schedule s
