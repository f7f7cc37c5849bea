-- ===== src/Prelude/Lists.antt =====
-- Lists measured, cut and indexed by native numbers, under the library's names.
use Prim.Native.Nat.{ℕ, zero, suc, ◌+◌, ◌-◌, min}
use mathlib.Core.List.{List, [], ◌∷◌, ◌++◌}
use mathlib.Core.Option.{Option, none, some, some-injective}
use mathlib.Core.Path.{◌≡◌, refl, ap, subst, sym}
use mathlib.Core.Logic.{◌≢◌, ◌⊎◌, inl, inr}
use native.Mathlib.Omega.{arith}

module _ {ℓ} {A : Type ℓ} where
  abbrev pub length : List A → ℕ
  length [] = 0
  length (x ∷ xs) = suc (length xs)

  abbrev pub get_elem? : List A → ℕ → Option A
  get_elem? [] i = none
  get_elem? (x ∷ xs) zero = some x
  get_elem? (x ∷ xs) (suc i) = get_elem? xs i

  -- A write out of bounds changes nothing.
  abbrev pub set : List A → ℕ → A → List A
  set [] i v = []
  set (x ∷ xs) zero v = v ∷ xs
  set (x ∷ xs) (suc i) v = x ∷ set xs i v

  abbrev pub take : ℕ → List A → List A
  take zero xs = []
  take (suc n) [] = []
  take (suc n) (x ∷ xs) = x ∷ take n xs

  abbrev pub drop : ℕ → List A → List A
  drop zero xs = xs
  drop (suc n) [] = []
  drop (suc n) (x ∷ xs) = drop n xs

  abbrev pub replicate : ℕ → A → List A
  replicate zero a = []
  replicate (suc n) a = a ∷ replicate n a

  abbrev pub All {κ} : (A → Type κ) → List A → Type κ
  All Q [] = Unit
  All Q (a ∷ us) = Q a × All Q us

  pub length-append : (xs ys : List A) → length (xs ++ ys) ≡ length xs + length ys
  length-append [] ys = omega arith
  length-append (x ∷ xs) ys = omega (arith, length-append xs ys)

  pub length-take : (n : ℕ) (xs : List A) → length (take n xs) ≡ min n (length xs)
  length-take zero xs = omega arith
  length-take (suc n) [] = omega arith
  length-take (suc n) (x ∷ xs) = omega (arith, length-take n xs)

  pub length-drop : (n : ℕ) (xs : List A) → length (drop n xs) ≡ length xs - n
  length-drop zero xs = omega arith
  length-drop (suc n) [] = omega arith
  length-drop (suc n) (x ∷ xs) = omega (arith, length-drop n xs)

  pub length-replicate : (n : ℕ) (a : A) → length (replicate n a) ≡ n
  length-replicate zero a = refl
  length-replicate (suc n) a = ap suc (length-replicate n a)

module _ {ℓ} {A : Type ℓ} where
  pub take-append : (xs ys : List A) → take (length xs) (xs ++ ys) ≡ xs
  take-append [] ys = refl
  take-append (x ∷ xs) ys = ap (◌∷◌ x) (take-append xs ys)

  pub drop-append : (xs ys : List A) → drop (length xs) (xs ++ ys) ≡ ys
  drop-append [] ys = refl
  drop-append (x ∷ xs) ys = drop-append xs ys

  pub take_all : (xs : List A) → take (length xs) xs ≡ xs
  take_all [] = refl
  take_all (x ∷ xs) = ap (◌∷◌ x) (take_all xs)

  pub drop_all : (xs : List A) → drop (length xs) xs ≡ []
  drop_all [] = refl
  drop_all (x ∷ xs) = drop_all xs

  pub All-append {κ} : (Q : A → Type κ) (us vs : List A) → All Q us → All Q vs → All Q (us ++ vs)
  All-append Q (a ∷ us) vs (q, p) r = (q, All-append Q us vs p r)
  All-append Q [] vs p r = r

  pub All-get_elem? {κ} :
      (P : A → Type κ) (xs : List A) (i : ℕ) {x : A} → All P xs → get_elem? xs i ≡ some x → P x
  All-get_elem? P [] i h e = cc
  All-get_elem? P (y ∷ xs) zero h e = subst P (some-injective _ _ e) h.0
  All-get_elem? P (y ∷ xs) (suc i) h e = All-get_elem? P xs i h.1 e

  pub All-set {κ} :
      (P : A → Type κ) (xs : List A) (i : ℕ) (x : A) → All P xs → P x → All P (set xs i x)
  All-set P [] i x h p = tt
  All-set P (y ∷ xs) zero x h p = (p, h.1)
  All-set P (y ∷ xs) (suc i) x h p = (h.0, All-set P xs i x h.1 p)

  pub length-set : (xs : List A) (i : ℕ) (x : A) → length (set xs i x) ≡ length xs
  length-set [] i x = refl
  length-set (y ∷ xs) zero x = refl
  length-set (y ∷ xs) (suc i) x = ap suc (length-set xs i x)

  pub All-head {κ} : (Q : A → Type κ) (us vs : List A) → All Q (us ++ vs) → All Q us
  All-head Q [] vs a = tt
  All-head Q (u ∷ us) vs a = (a.0, All-head Q us vs a.1)

  pub All-tail {κ} : (Q : A → Type κ) (us vs : List A) → All Q (us ++ vs) → All Q vs
  All-tail Q [] vs a = a
  All-tail Q (u ∷ us) vs a = All-tail Q us vs a.1

  -- A list that is as long has an element at each place too.
  pub get_elem?_both {κ} :
      {B : Type κ} (xs : List A) (ys : List B) (i : ℕ) {y : B}
      → length ys ≡ length xs
      → get_elem? ys i ≡ some y
      → (x : A) × (get_elem? xs i ≡ some x)
  get_elem?_both xs [] i e f = cc
  get_elem?_both [] (z ∷ ys) i e f = ground arith
  get_elem?_both (x ∷ xs) (z ∷ ys) zero e f = (x, refl)
  get_elem?_both (x ∷ xs) (z ∷ ys) (suc i) e f = get_elem?_both xs ys i (omega (arith, e)) f

  pub get_elem?-set_here :
      (xs : List A) (i : ℕ) {x : A} (y : A)
      → get_elem? xs i ≡ some x
      → get_elem? (set xs i y) i ≡ some y
  get_elem?-set_here [] i y e = cc
  get_elem?-set_here (z ∷ xs) zero y e = refl
  get_elem?-set_here (z ∷ xs) (suc i) y e = get_elem?-set_here xs i y e

  pub get_elem?-set_other :
      (xs : List A) (j i : ℕ) (y : A) → j ≢ i → get_elem? (set xs j y) i ≡ get_elem? xs i
  get_elem?-set_other [] j i y n = refl
  get_elem?-set_other (z ∷ xs) zero zero y n = absurd (n refl)
  get_elem?-set_other (z ∷ xs) zero (suc i) y n = refl
  get_elem?-set_other (z ∷ xs) (suc j) zero y n = refl
  get_elem?-set_other (z ∷ xs) (suc j) (suc i) y n =
      get_elem?-set_other xs j i y (λ e. n (ap suc e))

  pub get_elem?-set_cases :
      (xs : List A) (k j : ℕ) (y : A) {x : A}
      → get_elem? (set xs k y) j ≡ some x
      → ((j ≡ k) × (x ≡ y)) ⊎ (get_elem? xs j ≡ some x)
  get_elem?-set_cases [] k j y e = cc
  get_elem?-set_cases (z ∷ xs) zero zero y e = inl (refl, sym (some-injective _ _ e))
  get_elem?-set_cases (z ∷ xs) zero (suc j) y e = inr e
  get_elem?-set_cases (z ∷ xs) (suc k) zero y e = inr e
  get_elem?-set_cases (z ∷ xs) (suc k) (suc j) y e = elim (get_elem?-set_cases xs k j y e) [
    | inl (p, q) ↦ inl (ap suc p, q)
    | inr f ↦ inr f
  ]
