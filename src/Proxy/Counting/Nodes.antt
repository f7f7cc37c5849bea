-- ===== src/Proxy/Counting/Nodes.antt =====
-- The counters of `Stats` by the nodes whose connections served the queries.
use crunchy_proxy.Go.{Bytes, ok, >>=-eq-ok, equal}
use crunchy_proxy.Prelude.{
  ℕ, ◌+◌, ◌≡◌, refl, inl, inr, List, [], ◌∷◌, none, some, arith, get_elem?, All-get_elem?,
  Option-cases, if◌then◌else◌,
}
use crunchy_proxy.Proxy.Counting.Runs.{served, served_by, or_zero}
use crunchy_proxy.Proxy.Counting.Stats.{serves_on}
use crunchy_proxy.Proxy.Handler.{
  Handler, Phase, receiving, took_pool, took_backend, serving, gone, Action, System, step, run,
}
use crunchy_proxy.Proxy.Ownership.Origin.{OriginInv, HaveOrigin, step-HaveOrigin}

-- `owner c` is the pool that connection `c` belongs to, and `names k` the name of pool `k`.
module _ (owner : ℕ → ℕ) (names : ℕ → Bytes) (name : Bytes) where
  -- 1 if the handler has come to serve a query on a connection of the node `name`, 0 if not.
  abbrev pub serves_from : Handler → ℕ
  serves_from h = elim h.phase [
    | serving ↦ elim h.backend [ none ↦ 0 | some c ↦ if equal (names (owner c)) name then 1 else 0 ]
    | _ ↦ 0
  ]

  abbrev pub serves_at : ℕ → System → ℕ
  serves_at i t = elim (get_elem? t.handlers i) [ none ↦ 0 | some h ↦ serves_from h ]

  -- How often a step of the schedule brings a handler to serve a query on a connection of the node.
  abbrev pub served_from : List (ℕ × Action) → System → ℕ
  served_from [] s = 0
  served_from ((i, a) ∷ schedule) s =
      or_zero name (step i a s) (λ t. serves_at i t + served_from schedule t)

  serves_from-serves_on :
      (f : Phase) (h : Handler)
      → h.phase ≡ f
      → OriginInv owner names f h
      → serves_from h ≡ serves_on name h
  serves_from-serves_on serving h f (k, c, (pool, backend, owns), node) =
      rw (f, backend, node, owns) refl
  serves_from-serves_on receiving h f v = rw f refl
  serves_from-serves_on took_pool h f v = rw f refl
  serves_from-serves_on took_backend h f v = rw f refl
  serves_from-serves_on gone h f v = rw f refl

  serves_at-served_by :
      (i : ℕ) (t : System) → HaveOrigin owner names t → serves_at i t ≡ served_by name i t
  serves_at-served_by i t v = elim (Option-cases (get_elem? t.handlers i)) [
    | inl missing ↦ rw (missing, served_by, serves_at) refl
    | inr (h, found) ↦
        rw (found, served_by, serves_at)
          (serves_from-serves_on h.phase h refl
            (All-get_elem? (λ h. OriginInv owner names h.phase h) t.handlers i v.1 found))
  ]

  pub served_from-served :
      (schedule : List (ℕ × Action)) (s : System) {t : System}
      → HaveOrigin owner names s
      → run schedule s ≡ ok t
      → served_from schedule s ≡ served name schedule s
  unfolding run
  served_from-served [] s v e = refl
  served_from-served ((i, a) ∷ schedule) s v e =
      let (u, first, rest) = >>=-eq-ok (step i a s) (run schedule) e in
      let v' = step-HaveOrigin owner names i a s v first in
      let here = serves_at-served_by i u v' in
      let later = served_from-served schedule u v' rest in rw first (omega (arith, here, later))
