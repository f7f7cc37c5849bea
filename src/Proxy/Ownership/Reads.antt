-- ===== src/Proxy/Ownership/Reads.antt =====
-- The `read` of a handler is that of the last query that its client sent.
use crunchy_proxy.Go.{ok, >>=-eq-ok, ok-injective}
use crunchy_proxy.Prelude.{
  ℕ, ◌≡◌, sym, subst, ap, ◌∙◌, inl, inr, Bool, true, false, List, [], ◌∷◌, some, arith, get_elem?,
  get_elem?_both, get_elem?-set_here, get_elem?-set_other, length, length-set, All-get_elem?, set,
  ◌==◌, ==_refl, ==_false, if◌then◌else◌, Option-cases,
}
use native.Mathlib.Decide.{ℕ_discrete}
use mathlib.Core.Option.{some-injective}
use crunchy_proxy.Proxy.Handler.{
  Phase, receiving, took_pool, took_backend, serving, Handler, new_handler, Action, query,
  next_connection, give_pool_back, answered, other_message, hang_up, on_query, on_next,
  note_annotations, on_return_pool, on_answered, handler_step, System, step, run,
}
use crunchy_proxy.Proxy.Ownership.Runs.{step-found, step-missing}
use crunchy_proxy.Proxy.Ownership.Safety.{IsStart}
use crunchy_proxy.Proxy.Routing.{Proxy}

-- The `read` that an action leaves, by what it was before.
abbrev read_after : Action → Bool → Bool
read_after (query a) b = a.read
read_after _ b = b

-- Does the last query of client `i` in the schedule have a `read` annotation? `b` if it sends none.
abbrev pub last_read : ℕ → Bool → List (ℕ × Action) → Bool
last_read i b [] = b
last_read i b ((j, a) ∷ schedule) = last_read i (if j == i then read_after a b else b) schedule

handler_step-read :
    (f : Phase) (a : Action) (h : Handler) (p : Proxy) {r : Handler × Proxy}
    → handler_step f a h p ≡ ok r
    → r.0.read ≡ read_after a h.read
unfolding handler_step on_query on_next on_return_pool on_answered note_annotations
handler_step-read receiving (query a) h p e = ground arith
handler_step-read receiving other_message h p e = ground arith
handler_step-read receiving hang_up h p e = ground arith
handler_step-read took_pool next_connection h p e = ground arith
handler_step-read took_backend give_pool_back h p e = ground arith
handler_step-read serving answered h p e = ground arith
handler_step-read _ _ h p e = cc

-- Handler `i` is there behind a step, with the `read` that the step leaves it.
step-read :
    (i j : ℕ) (a : Action) (s : System) {t : System} {h : Handler}
    → step j a s ≡ ok t
    → get_elem? s.handlers i ≡ some h
    → (h' : Handler) × (get_elem? t.handlers i ≡ some h')
      × (h'.read ≡ (if j == i then read_after a h.read else h.read))
step-read i j a s {t} {h} e found = elim (Option-cases (get_elem? s.handlers j)) [
  | inl missing ↦ absurd (step-missing j a s missing e)
  | inr (g, hit) ↦
      let (r, taken, put_eq) = step-found j a s g hit e in
      elim (ℕ_discrete j i) [
        | yes q ↦
            let same : g ≡ h = some-injective _ _ (sym hit ∙ ap (get_elem? s.handlers) q ∙ found) in
            (
              r.0,
              ap (λ (t : System). get_elem? t.handlers i) put_eq
                  ∙ subst (λ i. get_elem? (set s.handlers j r.0) i ≡ some r.0) q
                      (get_elem?-set_here s.handlers j r.0 hit),
              handler_step-read g.phase a g s.proxy taken
                  ∙ ap (λ (h : Handler). read_after a h.read) same
                  ∙ ap (λ b. if b then read_after a h.read else h.read)
                      (sym (subst (λ i. (j == i) ≡ true) q (==_refl j))),
            )
        | no n ↦ (
          h,
          ap (λ (t : System). get_elem? t.handlers i) put_eq
              ∙ get_elem?-set_other s.handlers j i r.0 n
              ∙ found,
          ap (λ b. if b then read_after a h.read else h.read) (sym (==_false j i n)),
        )
      ]
]

pub run-last_read :
    (schedule : List (ℕ × Action)) (i : ℕ) (s : System) {t : System} {h h' : Handler}
    → run schedule s ≡ ok t
    → get_elem? s.handlers i ≡ some h
    → get_elem? t.handlers i ≡ some h'
    → h'.read ≡ last_read i h.read schedule
unfolding run
run-last_read [] i s {t} {h} {h'} e found found' =
    ap (λ (h : Handler). h.read)
      (some-injective _ _
        (sym found' ∙ ap (λ (t : System). get_elem? t.handlers i) (sym (ok-injective e)) ∙ found))
run-last_read ((j, a) ∷ schedule) i s e found found' =
    let (u, first, rest) = >>=-eq-ok (step j a s) (run schedule) e in
    let (g, hit, same) = step-read i j a s first found in
    run-last_read schedule i u rest hit found' ∙ ap (λ b. last_read i b schedule) same

run-length :
    (schedule : List (ℕ × Action)) (s : System) {t : System}
    → run schedule s ≡ ok t
    → length t.handlers ≡ length s.handlers
unfolding run
run-length [] s e = ap (λ (t : System). length t.handlers) (sym (ok-injective e))
run-length ((j, a) ∷ schedule) s e =
    let (u, first, rest) = >>=-eq-ok (step j a s) (run schedule) e in
    run-length schedule u rest ∙ one u first
  where
    one : (u : System) → step j a s ≡ ok u → length u.handlers ≡ length s.handlers
    one u first = elim (Option-cases (get_elem? s.handlers j)) [
      | inl missing ↦ absurd (step-missing j a s missing first)
      | inr (g, hit) ↦
          let (r, _, put_eq) = step-found j a s g hit first in
          ap (λ (t : System). length t.handlers) put_eq ∙ length-set s.handlers j r.0
    ]

-- From handlers that have read nothing yet.
pub IsStart-last_read :
    (schedule : List (ℕ × Action)) (i : ℕ) (s : System) {t : System} {h : Handler}
    → IsStart s
    → run schedule s ≡ ok t
    → get_elem? t.handlers i ≡ some h
    → h.read ≡ last_read i false schedule
IsStart-last_read schedule i s {t} a e found =
    let (g, hit) = get_elem?_both s.handlers t.handlers i (run-length schedule s e) found in
    run-last_read schedule i s e hit found
    ∙ ap (λ (h : Handler). last_read i h.read schedule)
        (All-get_elem? (λ h. h ≡ new_handler) s.handlers i a hit)
