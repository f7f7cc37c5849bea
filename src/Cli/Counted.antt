-- ===== src/Cli/Counted.antt =====
-- The command `stats` on a proxy that has served queries.
use mathlib.Core.Option.{some-injective}
use crunchy_proxy.Cli.Command.{AdminClient, Flags, Json, returned, run_stats, plain_stats}
use crunchy_proxy.Cli.Failures.{IsReachable, dialed-rest, in_plain}
use crunchy_proxy.Config.{StringMap}
use crunchy_proxy.Go.Decimal.{show_int32, read_int32, read_int32-show_int32}
use crunchy_proxy.Go.{Bytes, ok, codes}
use crunchy_proxy.Prelude.{
  ℕ, zero, suc, ◌+◌, ◌%◌, ◌^◌, ◌<◌, ◌≡◌, refl, ap, sym, ◌∙◌, inr, List, [], ◌∷◌, ◌++◌, append_assoc,
  none, some, All-get_elem?, get_elem?,
}
use crunchy_proxy.Proxy.Counting.Runs.{run-counts}
use crunchy_proxy.Proxy.Counting.Nodes.{served_from, served_from-served}
use crunchy_proxy.Proxy.Ownership.Origin.{OwnPools, IsStart-OriginInv}
use crunchy_proxy.Proxy.Ownership.Safety.{IsStart}
use crunchy_proxy.Proxy.Counting.Stats.{AreInt32}
use crunchy_proxy.Proxy.Handler.{Action, System, run}
use crunchy_proxy.Proxy.Routing.{get_stat}
use crunchy_proxy.Server.{statistics_response}

-- The line of a node
abbrev pub stats_line : Bytes → Bytes → Bytes → Bytes
stats_line name number after = codes "* " ++ (name ++ (codes " - " ++ (number ++ 10 ∷ after)))

plain_stats-cons :
    (name : Bytes) (n : ℕ) (stats : StringMap ℕ)
    → plain_stats ((name, n) ∷ stats) ≡ stats_line name (show_int32 n) (plain_stats stats)
unfolding plain_stats
plain_stats-cons name n stats = simp append_assoc

-- A listing holds the line of each entry.
plain_stats-entry :
    (stats : StringMap ℕ) (i : ℕ) (name : Bytes) (n : ℕ)
    → get_elem? stats i ≡ some (name, n)
    → (before : Bytes) × (after : Bytes) × (plain_stats stats
        ≡ before ++ stats_line name (show_int32 n) after)
unfolding plain_stats
plain_stats-entry [] i name n e = cc
plain_stats-entry ((key, m) ∷ stats) zero name n e = (
  [],
  plain_stats stats,
  plain_stats-cons key m stats
      ∙ ap (λ (p : Bytes × ℕ). stats_line p.0 (show_int32 p.1) (plain_stats stats))
          (some-injective _ _ e),
)
plain_stats-entry ((key, m) ∷ stats) (suc i) name n e =
    let (before, after, q) = plain_stats-entry stats i name n e in
    (stats_line key (show_int32 m) before, after, simp (q, append_assoc))

plain_output :
    (json : Json) (client : AdminClient) (flags : Flags) (stats : StringMap ℕ)
    → IsReachable json client flags
    → flags.format ≡ codes "plain"
    → client.statistics ≡ inr stats
    → run_stats json client flags ≡ ok (returned (plain_stats stats ++ 10 ∷ []) none)
unfolding run_stats
plain_output json client flags stats r p h =
    dialed-rest json client flags r _ ∙ rw h (rw (in_plain json client flags _ _ _ p) refl)

-- At the start of an execution, no handler has read a message, and each pool has the name of its node
-- and holds connections to that node only: `owner c` is the pool of connection `c`, and `names k` the
-- name of pool `k`. Afterwards, in whatever order the handlers run, the command `stats` in the plain
-- format prints a line for every node with a counter, whose number is read back as the counter at the
-- start and the queries that were served on connections to the node, on 32 bits. The proxy can be
-- reached, the call on its server gives the counters, and each name has one of them.
pub stats_shows_counts :
    (json : Json) (client : AdminClient) (flags : Flags) (owner : ℕ → ℕ) (names : ℕ → Bytes)
    (schedule : List (ℕ × Action)) (s t : System) (i : ℕ) (name : Bytes) (n : ℕ)
    → IsStart s
    → OwnPools owner names s.proxy.pools
    → IsReachable json client flags
    → flags.format ≡ codes "plain"
    → AreInt32 s.proxy.stats
    → run schedule s ≡ ok t
    → client.statistics ≡ inr (statistics_response t.proxy.stats)
    → get_elem? t.proxy.stats i ≡ some (name, n)
    → get_stat name t.proxy.stats ≡ n
    → (before : Bytes) × (number : Bytes) × (after : Bytes) × (run_stats json client flags
        ≡ ok (returned (before ++ stats_line name number after) none))
      × (read_int32 number
          ≡ (get_stat name s.proxy.stats + served_from owner names name schedule s) % 2 ^ 32)
unfolding statistics_response
stats_shows_counts json client flags owner names schedule s t i name n a own r p v e h f u =
    let (counts, v') = run-counts name schedule s v e in
    let counted =
      served_from-served owner names name schedule s
        (own, IsStart-OriginInv owner names s.handlers a) e in
    let (before, after, q) = plain_stats-entry t.proxy.stats i name n f in
    (
      before,
      show_int32 n,
      after ++ 10 ∷ [],
      plain_output json client flags t.proxy.stats r p h
          ∙ ap (λ o. ok (returned o none)) (simp (q, append_assoc)),
      read_int32-show_int32 n (All-get_elem? (λ (e : Bytes × ℕ). e.1 < 2 ^ 32) t.proxy.stats i v' f)
          ∙ sym u
          ∙ counts
          ∙ ap (λ k. (get_stat name s.proxy.stats + k) % 2 ^ 32) (sym counted),
    )
