-- ===== src/Protocol/ErrorCodes/Distinct.antt =====
-- No error code stands for two conditions.
use crunchy_proxy.Go.{Bytes, equal, equal_iff}
use mathlib.Core.Option.{some-injective}
use crunchy_proxy.Prelude.{
  sym, ◌∙◌, ℕ, zero, suc, ◌≡◌, ◌≢◌, refl, ap, Bool, true, false, not, ◌&&◌, List, [], ◌∷◌, some,
  get_elem?,
}
use crunchy_proxy.Protocol.ErrorCodes.{error_codes}

abbrev absent : Bytes → List Bytes → Bool
absent c [] = true
absent c (d ∷ ds) = not (equal c d) && absent c ds

abbrev distinct : List Bytes → Bool
distinct [] = true
distinct (c ∷ cs) = absent c cs && distinct cs

error_codes-distinct : distinct error_codes ≡ true
unfolding error_codes equal
error_codes-distinct = refl

and-true : (a b : Bool) → (a && b) ≡ true → (a ≡ true) × (b ≡ true)
and-true true b e = (refl, e)
and-true false b e = cc

absent-get_elem? :
    (c : Bytes) (cs : List Bytes) (i : ℕ) → absent c cs ≡ true → get_elem? cs i ≢ some c
absent-get_elem? c [] i a e = cc
absent-get_elem? c (d ∷ cs) zero a e =
    let same = (equal_iff c d).1 (sym (some-injective d c e)) in
    cc (ap not same, (and-true (not (equal c d)) (absent c cs) a).0)
absent-get_elem? c (d ∷ cs) (suc i) a e =
    absent-get_elem? c cs i (and-true (not (equal c d)) (absent c cs) a).1 e

distinct-get_elem? :
    (cs : List Bytes) (i j : ℕ) {c : Bytes}
    → distinct cs ≡ true
    → get_elem? cs i ≡ some c
    → get_elem? cs j ≡ some c
    → i ≡ j
distinct-get_elem? [] i j d e f = cc
distinct-get_elem? (x ∷ cs) zero zero d e f = refl
distinct-get_elem? (x ∷ cs) zero (suc j) {c} d e f =
    absurd (absent-get_elem? x cs j (and-true (absent x cs) (distinct cs) d).0 (f ∙ sym e))
distinct-get_elem? (x ∷ cs) (suc i) zero {c} d e f =
    absurd (absent-get_elem? x cs i (and-true (absent x cs) (distinct cs) d).0 (e ∙ sym f))
distinct-get_elem? (x ∷ cs) (suc i) (suc j) d e f =
    ap suc (distinct-get_elem? cs i j (and-true (absent x cs) (distinct cs) d).1 e f)

-- No two of the error codes are the same: a code stands at one place of the table only.
pub error_codes_unique :
    (i j : ℕ) {c : Bytes}
    → get_elem? error_codes i ≡ some c
    → get_elem? error_codes j ≡ some c
    → i ≡ j
error_codes_unique i j e f = distinct-get_elem? error_codes i j error_codes-distinct e f
