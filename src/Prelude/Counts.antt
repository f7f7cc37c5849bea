-- ===== src/Prelude/Counts.antt =====
-- How many numbers pass a test.
use Prim.Native.Nat.{ℕ, zero, suc, ◌+◌, ◌≤◌, ◌<◌}
use mathlib.Core.Bool.{Bool, true}
use mathlib.Core.Logic.{◌⊎◌, inl, inr}
use mathlib.Core.Path.{◌≡◌, sym, subst, ◌∙◌}
use native.Mathlib.Decide.{ℕ_discrete}
use native.Mathlib.Omega.{arith}
use crunchy_proxy.Prelude.Tests.{if◌then◌else◌, ltb, Bool-cases}

-- To split on the order of two numbers.
pub below : (a b : ℕ) → (a < b) ⊎ (b ≤ a)
below a b = elim (Bool-cases (ltb a b)) [
  | inl e ↦ inl (ground (arith, e))
  | inr e ↦ inr (ground (arith, e))
]

-- How many numbers below `n` pass the test.
abbrev pub count : (ℕ → Bool) → ℕ → ℕ
count f zero = 0
count f (suc n) = (if f n then 1 else 0) + count f n

pub count-le : (f : ℕ → Bool) (n : ℕ) → count f n ≤ n
count-le f zero = omega arith
count-le f (suc n) = ground (arith, count-le f n)

-- A test that more numbers pass either agrees below `n`, or more of the numbers there pass it.
pub count-grows :
    (f g : ℕ → Bool) (n : ℕ)
    → ((s : ℕ) → f s ≡ true → g s ≡ true)
    → (((s : ℕ) → s < n → g s ≡ f s) × (count f n ≤ count g n)) ⊎ (count f n < count g n)
count-grows f g zero h = inl ((λ s e. absurd (omega (arith, e))), omega arith)
count-grows f g (suc n) h = elim (count-grows f g n h) [
  | inr more ↦ inr (omega (arith, more, one))
  | inl (same, le) ↦ elim (Bool-cases (f n)) [
    | inl e ↦ inl (here same (h n e ∙ sym e), ground (arith, le, e, h n e))
    | inr e ↦ elim (Bool-cases (g n)) [
      | inl e' ↦ inr (ground (arith, le, e, e'))
      | inr e' ↦ inl (here same (e' ∙ sym e), ground (arith, le, e, e'))
    ]
  ]
]
  where
    one : (if f n then 1 else 0) ≤ (if g n then 1 else 0)
    one = elim (Bool-cases (f n)) [ inl e ↦ ground (arith, e, h n e) | inr e ↦ ground (arith, e) ]

    here : ((s : ℕ) → s < n → g s ≡ f s) → g n ≡ f n → (s : ℕ) → s < suc n → g s ≡ f s
    here same e s b = elim (ℕ_discrete s n) [
      | yes q ↦ subst (λ k. g k ≡ f k) (sym q) e
      | no q ↦ same s (omega (arith, b, q))
    ]
