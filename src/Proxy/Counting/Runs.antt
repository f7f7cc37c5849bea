-- ===== src/Proxy/Counting/Runs.antt =====
-- The counters of `Stats` over whole executions.
use crunchy_proxy.Go.{Bytes, Outcome, ok, panic, blocked, ◌>>=◌, >>=-eq-ok, ok-injective}
use crunchy_proxy.Prelude.{
  ℕ, ◌+◌, ◌%◌, ◌^◌, ◌≡◌, refl, sym, subst, ◌∙◌, Bool, false, List, [], ◌∷◌, Option, none, some, inl,
  inr, arith, get_elem?, get_elem?-set_here, Bool-cases, Option-cases,
}
use crunchy_proxy.Proxy.Annotation.{Annotations}
use crunchy_proxy.Proxy.Handler.{
  Handler, Phase, receiving, took_pool, took_backend, serving, Action, query, next_connection,
  give_pool_back, answered, other_message, hang_up, System, needs_backend, note_annotations,
  on_query, on_next, on_return_pool, on_answered, give_up_backend, handler_step, step, run, serve,
}
use crunchy_proxy.Proxy.Handler.Answered.{on_answered-free}
use crunchy_proxy.Proxy.Ownership.Runs.{step-found, step-missing}
use crunchy_proxy.Proxy.Routing.{
  Proxy, get_stat, get_pool, return_pool, deref, next_backend, return_backend,
}
use crunchy_proxy.Proxy.Counting.Stats.{
  AreInt32, serves_on, get_stat-AreInt32, count_query-AreInt32, get_stat-count_query,
}

-- The operations on the pools leave the counters alone.
get_pool-stats :
    (read : Bool) (p : Proxy) {r : ℕ × Proxy} → get_pool read p ≡ ok r → r.1.stats ≡ p.stats
unfolding get_pool
get_pool-stats read p e = ground arith

return_pool-stats :
    (k : ℕ) (read : Bool) (p : Proxy) {p' : Proxy}
    → return_pool k read p ≡ ok p'
    → p'.stats ≡ p.stats
unfolding return_pool
return_pool-stats k read p e = ground arith

next_backend-stats :
    (k : ℕ) (p : Proxy) {r : ℕ × Proxy} → next_backend k p ≡ ok r → r.1.stats ≡ p.stats
unfolding next_backend
next_backend-stats k p e = ground arith

give_up_backend-stats :
    (h : Handler) (p : Proxy) {p' : Proxy} → give_up_backend h p ≡ ok p' → p'.stats ≡ p.stats
unfolding give_up_backend return_backend
give_up_backend-stats h p e = ground arith

module _ (name : Bytes) where
  -- The counters behind a step count the query that the handler has come to serve.
  record Counted (p : Proxy) (r : Handler × Proxy) : Type 0 where
    pub counted : get_stat name r.1.stats ≡ (get_stat name p.stats + serves_on name r.0) % 2 ^ 32
    pub int32 : AreInt32 r.1.stats

  -- Where the counters are the same and no query is served.
  unchanged :
      (p : Proxy) (r : Handler × Proxy)
      → AreInt32 p.stats
      → r.1.stats ≡ p.stats
      → serves_on name r.0 ≡ 0
      → Counted p r
  unchanged p r v e z = record {
    counted = rw (e, z) (omega (arith, get_stat-AreInt32 name p.stats v));
    int32 = subst AreInt32 (sym e) v;
  }

  serve-Counted : (h : Handler) (p : Proxy) → AreInt32 p.stats → Counted p (serve h p)
  serve-Counted h p v = record {
    counted = get_stat-count_query name h.node_name p.stats v;
    int32 = count_query-AreInt32 h.node_name p.stats v;
  }

  on_query-Counted :
      (a : Annotations) (h : Handler) (p : Proxy) {r : Handler × Proxy}
      → AreInt32 p.stats
      → on_query a h p ≡ ok r
      → Counted p r
  unfolding on_query
  on_query-Counted a h p v e = elim (Bool-cases (needs_backend (note_annotations a h))) [
    | inl fetch ↦
        let (q, got, done) =
          >>=-eq-ok (get_pool (note_annotations a h).read p)
            (λ r. ok (record (note_annotations a h) { phase = took_pool; cp = some r.0 }, r.1))
            (rw (fetch, on_query) at e) in
        subst (Counted p) (ok-injective done)
          (unchanged p _ v (get_pool-stats (note_annotations a h).read p got) refl)
    | inr keep ↦
        subst (Counted p) (ok-injective (rw (keep, on_query) at e))
          (serve-Counted (note_annotations a h) p v)
  ]

  on_next-Counted :
      (h : Handler) (p : Proxy) (o : Option ℕ) {r : Handler × Proxy}
      → h.cp ≡ o
      → AreInt32 p.stats
      → on_next h p ≡ ok r
      → Counted p r
  unfolding on_next
  on_next-Counted h p none c v e = absurd (ground arith)
  on_next-Counted h p (some k) c v e =
      let (q, next, done) =
        >>=-eq-ok (next_backend k p)
          (λ r. ok (record h { phase = took_backend; backend = some r.0 }, r.1))
          (rw (c, on_next) at e) in
      subst (Counted p) (ok-injective done) (unchanged p _ v (next_backend-stats k p next) refl)

  on_return_pool-Counted :
      (h : Handler) (p : Proxy) (o : Option ℕ) {r : Handler × Proxy}
      → h.cp ≡ o
      → AreInt32 p.stats
      → on_return_pool h p ≡ ok r
      → Counted p r
  unfolding on_return_pool
  on_return_pool-Counted h p none c v e = absurd (ground arith)
  on_return_pool-Counted h p (some k) c v e =
      let (pool, found, rest) =
        >>=-eq-ok (deref (some k) p)
          (λ pool.
            return_pool k h.read p >>= λ p. ok (serve (record h { node_name = pool.name }) p))
          (rw (c, on_return_pool) at e) in
      let (q, back, done) =
        >>=-eq-ok (return_pool k h.read p) (λ p. ok (serve (record h { node_name = pool.name }) p))
          rest in
      let same = return_pool-stats k h.read p back in
      let c = serve-Counted (record h { node_name = pool.name }) q (subst AreInt32 (sym same) v) in
      subst (Counted p) (ok-injective done)
        (record { counted = rw (sym same) c.counted; int32 = c.int32 })

  on_answered-Counted :
      (h : Handler) (p : Proxy) {r : Handler × Proxy}
      → AreInt32 p.stats
      → on_answered h p ≡ ok r
      → Counted p r
  unfolding on_answered
  on_answered-Counted h p v e = elim (Bool-cases h.statement_block) [
    | inl block ↦
        subst (Counted p) (ok-injective (rw (block, on_answered) at e)) (unchanged p _ v refl refl)
    | inr free ↦
        let (q, given, done) =
          >>=-eq-ok (give_up_backend h p)
            (λ q. ok (record h { phase = receiving; at_end = false }, q))
            (sym (on_answered-free h p free) ∙ e) in
        subst (Counted p) (ok-injective done)
          (unchanged p _ v (give_up_backend-stats h p given) refl)
  ]

  handler_step-Counted :
      (ph : Phase) (a : Action) (h : Handler) (p : Proxy) {r : Handler × Proxy}
      → h.phase ≡ ph
      → AreInt32 p.stats
      → handler_step ph a h p ≡ ok r
      → Counted p r
  unfolding handler_step
  handler_step-Counted receiving (query a) h p q v e = on_query-Counted a h p v e
  handler_step-Counted receiving other_message h p q v e =
      subst (Counted p) (ok-injective e) (unchanged p _ v refl (rw q refl))
  handler_step-Counted receiving hang_up h p q v e =
      subst (Counted p) (ok-injective e) (unchanged p _ v refl refl)
  handler_step-Counted took_pool next_connection h p q v e = on_next-Counted h p h.cp refl v e
  handler_step-Counted took_backend give_pool_back h p q v e =
      on_return_pool-Counted h p h.cp refl v e
  handler_step-Counted serving answered h p q v e = on_answered-Counted h p v e
  handler_step-Counted _ _ h p q v e = absurd (ground arith)

  -- How many queries the steps of a schedule come to serve on the node.
  abbrev pub served_by : ℕ → System → ℕ
  served_by i t = elim (get_elem? t.handlers i) [ none ↦ 0 | some h ↦ serves_on name h ]

  abbrev pub or_zero : Outcome System → (System → ℕ) → ℕ
  or_zero (ok t) k = k t
  or_zero panic k = 0
  or_zero blocked k = 0

  abbrev pub served : List (ℕ × Action) → System → ℕ
  served [] s = 0
  served ((i, a) ∷ schedule) s = or_zero (step i a s) (λ t. served_by i t + served schedule t)

  step-Counted :
      (i : ℕ) (a : Action) (s : System) {t : System}
      → AreInt32 s.proxy.stats
      → step i a s ≡ ok t
      → (get_stat name t.proxy.stats ≡ (get_stat name s.proxy.stats + served_by i t) % 2 ^ 32)
        × AreInt32 t.proxy.stats
  step-Counted i a s {t} v e = elim (Option-cases (get_elem? s.handlers i)) [
    | inl miss ↦ absurd (step-missing i a s miss e)
    | inr (h, hit) ↦
        let (r, taken, q) = step-found i a s h hit e in
        let c = handler_step-Counted h.phase a h s.proxy refl v taken in
        subst
          (λ (t : System).
            (get_stat name t.proxy.stats ≡ (get_stat name s.proxy.stats + served_by i t) % 2 ^ 32)
            × AreInt32 t.proxy.stats)
          (sym q) (rw (get_elem?-set_here s.handlers i r.0 hit, served_by) (c.counted, c.int32))
  ]

  -- Whatever the clients send and in whatever order the handlers run: the counter of a node has grown
  -- by the number of queries that handlers have come to serve on it, on 32 bits, and all counters stay
  -- int32 values. So a counter is exact as long as it does not pass `2 ^ 32`.
  pub run-counts :
      (schedule : List (ℕ × Action)) (s : System) {t : System}
      → AreInt32 s.proxy.stats
      → run schedule s ≡ ok t
      → (get_stat name t.proxy.stats ≡ (get_stat name s.proxy.stats + served schedule s) % 2 ^ 32)
        × AreInt32 t.proxy.stats
  unfolding run
  run-counts [] s {t} v e =
      subst
        (λ (t : System).
          (get_stat name t.proxy.stats ≡ (get_stat name s.proxy.stats + 0) % 2 ^ 32)
          × AreInt32 t.proxy.stats)
        (ok-injective e) (omega (arith, get_stat-AreInt32 name s.proxy.stats v), v)
  run-counts ((i, a) ∷ schedule) s {t} v e =
      let (u, first, rest) = >>=-eq-ok (step i a s) (run schedule) e in
      let (here, v') = step-Counted i a s v first in
      let (later, v'') = run-counts schedule u v' rest in
      (rw first (omega (arith, here, later)), v'')
