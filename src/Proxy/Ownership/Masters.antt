-- ===== src/Proxy/Ownership/Masters.antt =====
-- Which pool a query's connection comes from, in any execution.
use crunchy_proxy.Go.{ok, ◌>>=◌, >>=-eq-ok, ok-injective}
use crunchy_proxy.Prelude.{
  ℕ, ◌≡◌, refl, sym, subst, ◌∙◌, inl, inr, Bool, false, not, List, [], ◌∷◌, Option, none, some,
  get_elem?, All, All-get_elem?, All-set, Option-cases, Bool-cases,
}
use crunchy_proxy.Proxy.Annotation.{Annotations}
use crunchy_proxy.Proxy.Handler.{
  Phase, receiving, took_pool, took_backend, serving, Handler, new_handler, Action, query,
  next_connection, give_pool_back, answered, other_message, hang_up, on_query, on_next,
  needs_backend, note_annotations, serve, give_up_backend, on_return_pool, on_answered,
  handler_step, System, step, run,
}
use crunchy_proxy.Proxy.Ownership.Runs.{step-found, step-missing}
use crunchy_proxy.Proxy.Ownership.Safety.{IsStart}
use crunchy_proxy.Proxy.Routing.Moves.{next_backend-Takes}
use crunchy_proxy.Proxy.Routing.{Proxy, get_pool, return_pool, next_backend, deref}
use crunchy_proxy.Proxy.Handler.Answered.{on_answered-free}
use crunchy_proxy.Proxy.Ownership.Sorted.{
  IsSorted, get_pool-IsSorted, return_pool-IsSorted, give_up_backend-IsSorted,
}

-- `is_master k` says whether pool `k` belongs to the master.
module _ (is_master : ℕ → Bool) where
  -- The pool is a master's exactly if the query is not a read.
  abbrev pub IsRouted : Option ℕ → Bool → Type 0
  IsRouted none read = ⊥
  IsRouted (some k) read = is_master k ≡ not read

  abbrev RouteInv : Phase → Handler → Type 0
  RouteInv took_pool h = IsRouted h.cp h.read
  RouteInv took_backend h = IsRouted h.cp h.read
  RouteInv _ h = Unit {0}

  abbrev RouteKept : Handler × Proxy → Type 0
  RouteKept r = IsSorted is_master r.1 × RouteInv r.0.phase r.0

  on_query-RouteKept :
      (a : Annotations) (h : Handler) (p : Proxy) {r : Handler × Proxy}
      → IsSorted is_master p
      → on_query a h p ≡ ok r
      → RouteKept r
  unfolding on_query
  on_query-RouteKept a h p s e = elim (Bool-cases (needs_backend (note_annotations a h))) [
    | inl fetch ↦
        let first = rw (fetch, on_query) at e in
        let (q, got, done) =
          >>=-eq-ok (get_pool (note_annotations a h).read p)
            (λ r. ok (record (note_annotations a h) { phase = took_pool; cp = some r.0 }, r.1))
            first in
        let (m, sorted) = get_pool-IsSorted is_master (note_annotations a h).read p s got in
        subst RouteKept (ok-injective done) (sorted, m)
    | inr keep ↦ subst RouteKept (ok-injective (rw (keep, on_query) at e)) (s, tt)
  ]

  on_next-RouteKept :
      (h : Handler) (p : Proxy) (o : Option ℕ) {r : Handler × Proxy}
      → h.cp ≡ o
      → IsSorted is_master p
      → IsRouted h.cp h.read
      → on_next h p ≡ ok r
      → RouteKept r
  unfolding on_next
  on_next-RouteKept h p none c s m e = absurd (rw c at m)
  on_next-RouteKept h p (some k) c s m e =
      let first = rw (c, on_next) at e in
      let (q, next, done) =
        >>=-eq-ok (next_backend k p)
          (λ r. ok (record h { phase = took_backend; backend = some r.0 }, r.1)) first in
      let t = next_backend-Takes k p next in
      subst RouteKept (ok-injective done) (subst (IsSorted is_master) (sym t.result) s, m)

  on_return_pool-RouteKept :
      (h : Handler) (p : Proxy) (o : Option ℕ) {r : Handler × Proxy}
      → h.cp ≡ o
      → IsSorted is_master p
      → IsRouted h.cp h.read
      → on_return_pool h p ≡ ok r
      → RouteKept r
  unfolding on_return_pool
  on_return_pool-RouteKept h p none c s m e = absurd (rw c at m)
  on_return_pool-RouteKept h p (some k) c s m e =
      let first = rw (c, on_return_pool) at e in
      let (pool, found, rest) =
        >>=-eq-ok (deref (some k) p)
          (λ pool.
            return_pool k h.read p >>= λ p. ok (serve (record h { node_name = pool.name }) p))
          first in
      let (q, returned, done) =
        >>=-eq-ok (return_pool k h.read p) (λ p. ok (serve (record h { node_name = pool.name }) p))
          rest in
      subst RouteKept (ok-injective done)
        (return_pool-IsSorted is_master k h.read p s (rw c at m) returned, tt)

  on_answered-RouteKept :
      (h : Handler) (p : Proxy) {r : Handler × Proxy}
      → IsSorted is_master p
      → on_answered h p ≡ ok r
      → RouteKept r
  unfolding on_answered
  on_answered-RouteKept h p s e = elim (Bool-cases h.statement_block) [
    | inl block ↦ subst RouteKept (ok-injective (simp block at e)) (s, tt)
    | inr free ↦
        let (q, given, done) =
          >>=-eq-ok (give_up_backend h p)
            (λ p. ok (record h { phase = receiving; at_end = false }, p))
            (sym (on_answered-free h p free) ∙ e) in
        subst RouteKept (ok-injective done)
          (give_up_backend-IsSorted is_master h p h.cp h.backend refl refl s given, tt)
  ]

  handler_step-RouteKept :
      (f : Phase) (a : Action) (h : Handler) (p : Proxy) {r : Handler × Proxy}
      → h.phase ≡ f
      → IsSorted is_master p
      → RouteInv f h
      → handler_step f a h p ≡ ok r
      → RouteKept r
  unfolding handler_step
  handler_step-RouteKept receiving (query a) h p f s v e = on_query-RouteKept a h p s e
  handler_step-RouteKept receiving other_message h p f s v e =
      subst RouteKept (ok-injective e) (s, rw f tt)
  handler_step-RouteKept receiving hang_up h p f s v e = subst RouteKept (ok-injective e) (s, tt)
  handler_step-RouteKept took_pool next_connection h p f s v e =
      on_next-RouteKept h p h.cp refl s v e
  handler_step-RouteKept took_backend give_pool_back h p f s v e =
      on_return_pool-RouteKept h p h.cp refl s v e
  handler_step-RouteKept serving answered h p f s v e = on_answered-RouteKept h p s e
  handler_step-RouteKept _ _ h p f s v e = cc

  abbrev AreRouted : System → Type 0
  AreRouted s = IsSorted is_master s.proxy × All (λ h. RouteInv h.phase h) s.handlers

  step-AreRouted :
      (i : ℕ) (a : Action) (s : System) {t : System} → AreRouted s → step i a s ≡ ok t → AreRouted t
  step-AreRouted i a s (sorted, v) e = elim (Option-cases (get_elem? s.handlers i)) [
    | inl missing ↦ absurd (step-missing i a s missing e)
    | inr (h, found) ↦
        let (r, taken, put_eq) = step-found i a s h found e in
        let k =
          handler_step-RouteKept h.phase a h s.proxy refl sorted
            (All-get_elem? (λ h. RouteInv h.phase h) s.handlers i v found) taken in
        subst AreRouted (sym put_eq) (k.0, All-set (λ h. RouteInv h.phase h) s.handlers i r.0 v k.1)
  ]

  run-AreRouted :
      (schedule : List (ℕ × Action)) (s : System) {t : System}
      → AreRouted s
      → run schedule s ≡ ok t
      → AreRouted t
  unfolding run
  run-AreRouted [] s v e = subst AreRouted (ok-injective e) v
  run-AreRouted ((i, a) ∷ schedule) s v e =
      let (u, first, rest) = >>=-eq-ok (step i a s) (run schedule) e in
      run-AreRouted schedule u (step-AreRouted i a s v first) rest

  IsStart-RouteInv :
      (hs : List Handler) → All (λ h. h ≡ new_handler) hs → All (λ h. RouteInv h.phase h) hs
  IsStart-RouteInv [] a = tt
  IsStart-RouteInv (h ∷ hs) a = (rw a.0 tt, IsStart-RouteInv hs a.1)

  -- Whatever the clients send and in whatever order the handlers run: if the channels hold the
  -- masters' pools and the others' at the start, then a handler that has fetched a connection for a
  -- query has it from a master's pool if the query has no `read` annotation, and from another pool if
  -- it has one.
  pub run-routes :
      (schedule : List (ℕ × Action)) (s : System) (i : ℕ) {t : System} {h : Handler}
      → IsStart s
      → IsSorted is_master s.proxy
      → run schedule s ≡ ok t
      → get_elem? t.handlers i ≡ some h
      → h.phase ≡ took_backend
      → IsRouted h.cp h.read
  run-routes schedule s i {t} {h} a sorted e found f =
      let v = run-AreRouted schedule s (sorted, IsStart-RouteInv s.handlers a) e in
      rw f at (All-get_elem? (λ h. RouteInv h.phase h) t.handlers i v.1 found)
