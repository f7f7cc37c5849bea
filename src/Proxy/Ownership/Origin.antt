-- ===== src/Proxy/Ownership/Origin.antt =====
-- Where the connection of a handler comes from, in any execution: from the pool that the connection
-- belongs to, whatever the clients send.
use crunchy_proxy.Go.{Bytes, ok, ◌>>=◌, >>=-eq-ok, ok-injective}
use crunchy_proxy.Pool.{Pool}
use crunchy_proxy.Prelude.{
  ℕ, ◌≡◌, refl, sym, subst, ap, ◌∙◌, inl, inr, false, List, [], ◌∷◌, Option, none, some, arith,
  get_elem?, get_elem?-set_cases, set, All, All-append, All-get_elem?, All-set, Option-cases,
  Bool-cases,
}
use mathlib.Core.Option.{some-injective}
use crunchy_proxy.Proxy.Annotation.{Annotations}
use crunchy_proxy.Proxy.Handler.Answered.{on_answered-free, give_up_backend-return_backend}
use crunchy_proxy.Proxy.Handler.{
  Phase, receiving, took_pool, took_backend, serving, Handler, new_handler, Action, query,
  next_connection, give_pool_back, answered, other_message, hang_up, on_query, on_next,
  needs_backend, note_annotations, serve, give_up_backend, on_return_pool, on_answered,
  handler_step, System, step, run,
}
use crunchy_proxy.Proxy.Ownership.Runs.{step-found, step-missing}
use crunchy_proxy.Proxy.Routing.Moves.{
  next_backend-Takes, return_backend-Gives, get_pool-pools, return_pool-pools,
}
use crunchy_proxy.Proxy.Routing.{Proxy, get_pool, return_pool, next_backend, return_backend, deref}

-- `owner c` is the pool that connection `c` belongs to, and `names k` the name of pool `k`.
module _ (owner : ℕ → ℕ) (names : ℕ → Bytes) where
  abbrev IsOwn : ℕ → Pool → Type 0
  IsOwn k pool = All (λ c. owner c ≡ k) pool.connections.items × (pool.name ≡ names k)

  -- The pools have their names, and hold connections of their own only.
  abbrev pub OwnPools : List Pool → Type 0
  OwnPools ps = (k : ℕ) (pool : Pool) → get_elem? ps k ≡ some pool → IsOwn k pool

  abbrev Linked : Handler → ℕ → ℕ → Type 0
  Linked h k c = (h.cp ≡ some k) × (h.backend ≡ some c) × (owner c ≡ k)

  -- The pool and the connection of a handler belong together, and its name is that of the pool once
  -- the pool was given back.
  abbrev pub OriginInv : Phase → Handler → Type 0
  OriginInv receiving h =
      (k c : ℕ) → h.cp ≡ some k → h.backend ≡ some c → (owner c ≡ k) × (h.node_name ≡ names k)
  OriginInv took_backend h = (k : ℕ) × (c : ℕ) × Linked h k c
  OriginInv serving h = (k : ℕ) × (c : ℕ) × Linked h k c × (h.node_name ≡ names k)
  OriginInv _ h = Unit {0}

  OwnPools-set :
      (ps : List Pool) (k : ℕ) (pool : Pool) → OwnPools ps → IsOwn k pool → OwnPools (set ps k pool)
  OwnPools-set ps k pool own mine j x e = elim (get_elem?-set_cases ps k j pool e) [
    | inl (p, q) ↦ rw (p, q) mine
    | inr f ↦ own j x f
  ]

  abbrev Kept : Handler × Proxy → Type 0
  Kept r = OwnPools r.1.pools × OriginInv r.0.phase r.0

  next_backend-OwnPools :
      (k : ℕ) (p : Proxy) {q : ℕ × Proxy}
      → OwnPools p.pools
      → next_backend k p ≡ ok q
      → OwnPools q.1.pools × (owner q.0 ≡ k)
  next_backend-OwnPools k p {q} own e =
      let t = next_backend-Takes k p e in
      let (all, name) = own k t.pool t.found in
      let all' = subst (All (λ c. owner c ≡ k)) t.taken.items all in
      (
        subst (λ (p : Proxy). OwnPools p.pools) (sym t.result)
            (OwnPools-set p.pools k t.left own (all'.1, t.taken.name ∙ name)),
        all'.0,
      )

  return_backend-OwnPools :
      (k c : ℕ) (p : Proxy) {p' : Proxy}
      → OwnPools p.pools
      → owner c ≡ k
      → return_backend k c p ≡ ok p'
      → OwnPools p'.pools
  return_backend-OwnPools k c p own mine e =
      let t = return_backend-Gives k c p e in
      let (all, name) = own k t.pool t.found in
      subst (λ (p : Proxy). OwnPools p.pools) (sym t.result)
        (OwnPools-set p.pools k t.filled own (
          subst (All (λ c. owner c ≡ k)) (sym t.given.items)
              (All-append (λ c. owner c ≡ k) t.pool.connections.items (c ∷ []) all (mine, tt)),
          t.given.name ∙ name,
        ))

  keeps_backend :
      (a : Annotations) (h : Handler)
      → needs_backend (note_annotations a h) ≡ false
      → (k : ℕ) × (c : ℕ) × (h.cp ≡ some k) × (h.backend ≡ some c)
  unfolding needs_backend note_annotations
  keeps_backend a h e = elim (Option-cases h.cp) [
    | inl n ↦ absurd (ground (arith, n))
    | inr (k, q) ↦ elim (Option-cases h.backend) [
      | inl n ↦ absurd (ground (arith, n))
      | inr (c, q') ↦ (k, c, q, q')
    ]
  ]

  same_rest :
      (a : Annotations) (h : Handler)
      → ((note_annotations a h).cp ≡ h.cp)
        × ((note_annotations a h).backend ≡ h.backend)
        × ((note_annotations a h).node_name ≡ h.node_name)
  unfolding note_annotations
  same_rest a h = ground arith

  on_query-Kept :
      (a : Annotations) (h : Handler) (p : Proxy) {r : Handler × Proxy}
      → OwnPools p.pools
      → OriginInv receiving h
      → on_query a h p ≡ ok r
      → Kept r
  unfolding on_query
  on_query-Kept a h p own v e = elim (Bool-cases (needs_backend (note_annotations a h))) [
    | inl fetch ↦
        let (q, got, done) =
          >>=-eq-ok (get_pool (note_annotations a h).read p)
            (λ r. ok (record (note_annotations a h) { phase = took_pool; cp = some r.0 }, r.1))
            (rw (fetch, on_query) at e) in
        subst Kept (ok-injective done)
          (subst OwnPools (sym (get_pool-pools (note_annotations a h).read p got)) own, tt)
    | inr keep ↦
        let (k, c, pool, backend) = keeps_backend a h keep in
        let (mine, name) = v k c pool backend in
        let (s, s', s'') = same_rest a h in
        subst Kept (ok-injective (rw (keep, on_query) at e))
          (own, (k, c, (s ∙ pool, s' ∙ backend, mine), s'' ∙ name))
  ]

  on_next-Kept :
      (h : Handler) (p : Proxy) (o : Option ℕ) {r : Handler × Proxy}
      → h.cp ≡ o
      → OwnPools p.pools
      → on_next h p ≡ ok r
      → Kept r
  unfolding on_next
  on_next-Kept h p none c own e = absurd (ground arith)
  on_next-Kept h p (some k) c own e =
      let (q, next, done) =
        >>=-eq-ok (next_backend k p)
          (λ r. ok (record h { phase = took_backend; backend = some r.0 }, r.1))
          (rw (c, on_next) at e) in
      let (own', mine) = next_backend-OwnPools k p own next in
      subst Kept (ok-injective done) (own', (k, q.0, (c, refl, mine)))

  on_return_pool-Kept :
      (h : Handler) (p : Proxy) {r : Handler × Proxy}
      → OwnPools p.pools
      → OriginInv took_backend h
      → on_return_pool h p ≡ ok r
      → Kept r
  unfolding on_return_pool deref
  on_return_pool-Kept h p own (k, b, (c, backend, mine)) e =
      let (pool, found, rest) =
        >>=-eq-ok (deref (some k) p)
          (λ pool.
            return_pool k h.read p >>= λ p. ok (serve (record h { node_name = pool.name }) p))
          (rw (c, on_return_pool) at e) in
      let (q, back, done) =
        >>=-eq-ok (return_pool k h.read p) (λ p. ok (serve (record h { node_name = pool.name }) p))
          rest in
      let here : get_elem? p.pools k ≡ some pool = ground arith in
      subst Kept (ok-injective done) (
        subst OwnPools (sym (return_pool-pools k h.read p back)) own,
        (k, b, (c, backend, mine), (own k pool here).1),
      )

  on_answered-Kept :
      (h : Handler) (p : Proxy) {r : Handler × Proxy}
      → OwnPools p.pools
      → OriginInv serving h
      → on_answered h p ≡ ok r
      → Kept r
  unfolding on_answered
  on_answered-Kept h p own (k, b, (pool, backend, mine), name) e =
      elim (Bool-cases h.statement_block) [
        | inl block ↦ subst Kept (ok-injective (rw (block, on_answered) at e)) (own, still)
        | inr free ↦
            let (q, given, done) =
              >>=-eq-ok (give_up_backend h p)
                (λ q. ok (record h { phase = receiving; at_end = false }, q))
                (sym (on_answered-free h p free) ∙ e) in
            let returned : return_backend k b p ≡ ok q =
              give_up_backend-return_backend h p k b pool backend given in
            subst Kept (ok-injective done) (return_backend-OwnPools k b p own mine returned, still)
      ]
    where
      still :
          (j c : ℕ) → h.cp ≡ some j → h.backend ≡ some c → (owner c ≡ j) × (h.node_name ≡ names j)
      still j c q q' =
          let same : k ≡ j = some-injective _ _ (sym pool ∙ q) in
          let same' : b ≡ c = some-injective _ _ (sym backend ∙ q') in
          (ap owner (sym same') ∙ mine ∙ same, name ∙ ap names same)

  handler_step-Kept :
      (f : Phase) (a : Action) (h : Handler) (p : Proxy) {r : Handler × Proxy}
      → h.phase ≡ f
      → OwnPools p.pools
      → OriginInv f h
      → handler_step f a h p ≡ ok r
      → Kept r
  unfolding handler_step
  handler_step-Kept receiving (query a) h p f own v e = on_query-Kept a h p own v e
  handler_step-Kept receiving other_message h p f own v e =
      subst Kept (ok-injective e) (own, rw f v)
  handler_step-Kept receiving hang_up h p f own v e = subst Kept (ok-injective e) (own, tt)
  handler_step-Kept took_pool next_connection h p f own v e = on_next-Kept h p h.cp refl own e
  handler_step-Kept took_backend give_pool_back h p f own v e = on_return_pool-Kept h p own v e
  handler_step-Kept serving answered h p f own v e = on_answered-Kept h p own v e
  handler_step-Kept _ _ h p f own v e = cc

  abbrev pub HaveOrigin : System → Type 0
  HaveOrigin s = OwnPools s.proxy.pools × All (λ h. OriginInv h.phase h) s.handlers

  pub step-HaveOrigin :
      (i : ℕ) (a : Action) (s : System) {t : System}
      → HaveOrigin s
      → step i a s ≡ ok t
      → HaveOrigin t
  step-HaveOrigin i a s (own, v) e = elim (Option-cases (get_elem? s.handlers i)) [
    | inl missing ↦ absurd (step-missing i a s missing e)
    | inr (h, found) ↦
        let (r, taken, put_eq) = step-found i a s h found e in
        let k =
          handler_step-Kept h.phase a h s.proxy refl own
            (All-get_elem? (λ h. OriginInv h.phase h) s.handlers i v found) taken in
        subst HaveOrigin (sym put_eq)
          (k.0, All-set (λ h. OriginInv h.phase h) s.handlers i r.0 v k.1)
  ]

  pub run-HaveOrigin :
      (schedule : List (ℕ × Action)) (s : System) {t : System}
      → HaveOrigin s
      → run schedule s ≡ ok t
      → HaveOrigin t
  unfolding run
  run-HaveOrigin [] s v e = subst HaveOrigin (ok-injective e) v
  run-HaveOrigin ((i, a) ∷ schedule) s v e =
      let (u, first, rest) = >>=-eq-ok (step i a s) (run schedule) e in
      run-HaveOrigin schedule u (step-HaveOrigin i a s v first) rest

  pub IsStart-OriginInv :
      (hs : List Handler) → All (λ h. h ≡ new_handler) hs → All (λ h. OriginInv h.phase h) hs
  IsStart-OriginInv [] a = tt
  IsStart-OriginInv (h ∷ hs) a = (rw a.0 (λ k c q q'. absurd (nothing q)), IsStart-OriginInv hs a.1)
    where
      nothing : {k : ℕ} → ◌≡◌ {A = Option ℕ} none (some k) → ⊥
      nothing q = cc
