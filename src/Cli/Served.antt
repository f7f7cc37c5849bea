-- ===== src/Cli/Served.antt =====
-- The command `health` on a server whose health check has made a round.
use crunchy_proxy.Cli.Command.{
  AdminClient, Flags, Json, returned, run_health, format_plain, health_answered,
}
use crunchy_proxy.Cli.Failures.{IsReachable, dialed-rest, in_plain}
use crunchy_proxy.Cli.Listing.{IsOneLine, read_listing, read_listing-format_plain}
use crunchy_proxy.Config.{Node, StringMap, Credentials, HealthCheckConfig}
use crunchy_proxy.Go.{Bytes, ok, codes, >>=-eq-ok, ok-injective, equal}
use crunchy_proxy.Prelude.{
  ◌≡◌, ap, sym, subst, ◌∙◌, Bool, true, false, inl, inr, List, [], ◌∷◌, ◌++◌, none, some, All,
  arith, Bool-cases,
}
use crunchy_proxy.Server.Health.{AllOpen, AreDistinct, Reports, check_nodes_round}
use crunchy_proxy.Server.{
  AdminServer, Database, check_node, check_nodes, set_health, health_response,
}

-- The names hold no newline.
abbrev pub NamesAreLines {ℓ} : {A : Type ℓ} → List (Bytes × A) → Type 0
NamesAreLines = All (λ p. IsOneLine p.0)

set_health-NamesAreLines :
    (name : Bytes) (b : Bool) (h : StringMap Bool)
    → IsOneLine name
    → NamesAreLines h
    → NamesAreLines (set_health name b h)
unfolding set_health
set_health-NamesAreLines name b [] n a = (n, tt)
set_health-NamesAreLines name b ((key, old) ∷ rest) n a = elim (Bool-cases (equal key name)) [
  | inl e ↦ rw (e, set_health) a
  | inr e ↦ rw (e, set_health) (a.0, set_health-NamesAreLines name b rest n a.1)
]

module _ (db : Database) (creds : Credentials) (hc : HealthCheckConfig) where
  check_node-NamesAreLines :
      (name : Bytes) (node : Node) (s : AdminServer) {t : AdminServer}
      → IsOneLine name
      → NamesAreLines s.node_health
      → check_node db creds hc name node s ≡ ok t
      → NamesAreLines t.node_health
  unfolding check_node
  check_node-NamesAreLines name node s n a e = ground (
    arith,
    set_health-NamesAreLines name true s.node_health n a,
    set_health-NamesAreLines name false s.node_health n a,
  )

  check_nodes-NamesAreLines :
      (nodes : StringMap Node) (s : AdminServer) {t : AdminServer}
      → NamesAreLines nodes
      → NamesAreLines s.node_health
      → check_nodes db creds hc nodes s ≡ ok t
      → NamesAreLines t.node_health
  unfolding check_nodes
  check_nodes-NamesAreLines [] s n a e = ground arith
  check_nodes-NamesAreLines ((name, node) ∷ nodes) s n a e =
      let (u, first, rest) =
        >>=-eq-ok (check_node db creds hc name node s) (check_nodes db creds hc nodes) e in
      check_nodes-NamesAreLines nodes u n.1 (check_node-NamesAreLines name node s n.0 a first) rest

plain_health :
    (json : Json) (client : AdminClient) (flags : Flags) (health : StringMap Bool)
    → IsReachable json client flags
    → flags.format ≡ codes "plain"
    → client.health ≡ inr health
    → run_health json client flags ≡ ok (returned (format_plain health ++ 10 ∷ []) none)
unfolding run_health
plain_health json client flags health r p h =
    dialed-rest json client flags r _
    ∙ ap (health_answered json flags) h
    ∙ ap (λ t. ok (returned (t ++ 10 ∷ []) none))
        (in_plain json client flags (json.health health) (format_plain health)
          (codes "Error: Unsupported format ") p)

-- After a round of the health check over nodes of different names, whose connections can all be
-- opened, on a server that had not checked yet, the command `health` in the plain format prints a
-- listing, with a newline behind it, from which the state of every node is read back: healthy exactly
-- if its query did not fail. The names hold no newline, and the call on the server succeeds.
pub health_shows_round :
    (db : Database) (creds : Credentials) (hc : HealthCheckConfig) (nodes : StringMap Node)
    (json : Json) (client : AdminClient) (flags : Flags)
    → AllOpen db creds hc nodes
    → AreDistinct db creds hc nodes
    → NamesAreLines nodes
    → IsReachable json client flags
    → flags.format ≡ codes "plain"
    → (t : AdminServer)
    → check_nodes db creds hc nodes (record { node_health = []; unclosed = 0 }) ≡ ok t
    → client.health ≡ inr (health_response t)
    → (listing : Bytes) × (health : StringMap Bool) × (run_health json client flags
        ≡ ok (returned (listing ++ 10 ∷ []) none))
      × (read_listing listing ≡ some health)
      × Reports db creds hc nodes health
unfolding health_response
health_shows_round db creds hc nodes json client flags o d n r p t e h =
    let s : AdminServer = record { node_health = []; unclosed = 0 } in
    let (t', e', _, each, _) = check_nodes_round db creds hc nodes s o d in
    let same = ok-injective (sym e' ∙ e) in
    (
      format_plain t.node_health,
      t.node_health,
      plain_health json client flags t.node_health r p h,
      read_listing-format_plain t.node_health
          (check_nodes-NamesAreLines db creds hc nodes s n tt e),
      subst (λ (t : AdminServer). Reports db creds hc nodes t.node_health) same each,
    )
