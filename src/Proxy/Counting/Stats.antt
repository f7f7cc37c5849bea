-- ===== src/Proxy/Counting/Stats.antt =====
-- A counter of `Stats` behind a count.
use crunchy_proxy.Connect.Validate.Startup.{equal-false}
use crunchy_proxy.Go.{Bytes, equal, equal_iff}
use crunchy_proxy.Prelude.{
  ℕ, ◌+◌, ◌%◌, ◌^◌, ◌<◌, ◌≡◌, sym, subst, ◌∙◌, Bool, true, false, [], ◌∷◌, inl, inr, arith, All,
  Bool-cases, if◌then◌else◌,
}
use crunchy_proxy.Proxy.Handler.{Handler, serving}
use crunchy_proxy.Proxy.Routing.{Stats, get_stat, count_query}

-- Every counter is an int32.
abbrev pub AreInt32 : Stats → Type 0
AreInt32 = All (λ (e : Bytes × ℕ). e.1 < 2 ^ 32)

-- 1 if the handler has come to serve a query on the node, 0 if not.
abbrev pub serves_on : Bytes → Handler → ℕ
serves_on name h = elim h.phase [ serving ↦ if equal h.node_name name then 1 else 0 | _ ↦ 0 ]

pub get_stat-AreInt32 :
    (name : Bytes) (stats : Stats) → AreInt32 stats → get_stat name stats < 2 ^ 32
unfolding get_stat
get_stat-AreInt32 name [] v = omega arith
get_stat-AreInt32 name ((key, n) ∷ stats) v = ground (arith, get_stat-AreInt32 name stats v.1)

pub count_query-AreInt32 :
    (node : Bytes) (stats : Stats) → AreInt32 stats → AreInt32 (count_query node stats)
unfolding count_query
count_query-AreInt32 node [] v = omega arith
count_query-AreInt32 node ((key, n) ∷ stats) v = elim (Bool-cases (equal key node)) [
  | inl e ↦ rw (e, count_query) (omega arith, v.1)
  | inr e ↦ rw (e, count_query) (v.0, count_query-AreInt32 node stats v.1)
]

-- Different texts are not both equal to a third.
equal-apart :
    (key node name : Bytes)
    → equal key node ≡ false
    → equal key name ≡ true
    → equal node name ≡ false
equal-apart key node name d e =
    equal-false node name
      (λ q. absurd (clash (sym d ∙ (equal_iff key node).1 ((equal_iff key name).0 e ∙ sym q))))
  where
    clash : ◌≡◌ {A = Bool} false true → ⊥
    clash q = cc

pub get_stat-count_query :
    (name node : Bytes) (stats : Stats)
    → AreInt32 stats
    → get_stat name (count_query node stats)
      ≡ (get_stat name stats + (if equal node name then 1 else 0)) % 2 ^ 32
unfolding get_stat count_query
get_stat-count_query name node [] v = ground arith
get_stat-count_query name node ((key, n) ∷ stats) v = elim (Bool-cases (equal key node)) [
  | inl e ↦
      rw (e, count_query)
        (subst
          (λ k.
            (if equal key name then (n + 1) % 2 ^ 32 else get_stat name stats)
            ≡ ((if equal key name then n else get_stat name stats)
                + (if equal k name then 1 else 0))
              % 2 ^ 32)
          ((equal_iff key node).0 e) (ground (arith, get_stat-AreInt32 name stats v.1)))
  | inr d ↦
      rw (d, count_query)
        (elim (Bool-cases (equal key name)) [
          | inl e ↦ rw (e, equal-apart key node name d e) (ground arith)
          | inr e ↦ rw e (get_stat-count_query name node stats v.1)
        ])
]
