-- ===== src/Proxy/Relay/Fuel.antt =====
-- The fuel of the loop over the messages of a read is enough.
use crunchy_proxy.Go.{Bytes, Outcome, ok, panic, blocked, ◌>>=◌}
use crunchy_proxy.Prelude.{
  ℕ, zero, suc, ◌+◌, ◌-◌, ◌≤◌, ◌<◌, ◌≡◌, ◌≢◌, ◌⊎◌, inl, inr, refl, ap, ◌∙◌, sym, Bool, true, false,
  arith, lt→ltb, le→ltb, below, count, count-le, count-grows,
}
use crunchy_proxy.Proxy.Relay.{advance, scan}

abbrev ends {ℓ} : {A : Type ℓ} → Outcome A → Bool
ends blocked = false
ends (ok a) = true
ends panic = true

ends-blocked {ℓ} : {A : Type ℓ} (o : Outcome A) → o ≢ blocked → ends o ≡ true
ends-blocked blocked n = absurd (n refl)
ends-blocked (ok a) n = refl
ends-blocked panic n = refl

module _ (message : Bytes) (len : ℕ) where
  -- Does the loop end on fuel `suc k`?
  abbrev halts : ℕ → ℕ → Bool
  halts k s = ends (scan (suc k) message len s 0)

  abbrev after : (ℕ → Bool) → Outcome (ℕ × ℕ) → Bool
  after f (ok x) = f x.1
  after f panic = true
  after f blocked = false

  scan_over : (k s t : ℕ) → len ≤ s → scan (suc k) message len s t ≡ ok t
  unfolding scan
  scan_over k s t h = rw (le→ltb len s h, scan) refl

  scan_under :
      (k s t : ℕ)
      → s < len
      → scan (suc k) message len s t ≡ (advance message s >>= λ x. scan k message len x.1 x.0)
  unfolding scan
  scan_under k s t h = rw (lt→ltb s len h, scan) refl

  -- The type that was read last does not matter.
  ends-scan : (k s t t' : ℕ) → ends (scan k message len s t) ≡ ends (scan k message len s t')
  unfolding scan
  ends-scan zero s t t' = refl
  ends-scan (suc k) s t t' = elim (below s len) [
    | inl h ↦ ap ends (scan_under k s t h ∙ sym (scan_under k s t' h))
    | inr h ↦ ap ends (scan_over k s t h) ∙ ap ends (sym (scan_over k s t' h))
  ]

  halts_under : (k s : ℕ) → s < len → halts (suc k) s ≡ after (halts k) (advance message s)
  halts_under k s h = ap ends (scan_under (suc k) s 0 h) ∙ bound (advance message s)
    where
      bound :
          (o : Outcome (ℕ × ℕ))
          → ends (o >>= λ x. scan (suc k) message len x.1 x.0) ≡ after (halts k) o
      bound (ok x) = ends-scan (suc k) x.1 x.0 0
      bound panic = refl
      bound blocked = refl

  -- More fuel changes nothing where the loop ends.
  scan-suc :
      (k s t : ℕ)
      → ends (scan k message len s t) ≡ true
      → scan (suc k) message len s t ≡ scan k message len s t
  unfolding scan
  scan-suc zero s t e = cc
  scan-suc (suc k) s t e = elim (below s len) [
    | inl h ↦
        scan_under (suc k) s t h
        ∙ bound (scan-suc k) (advance message s) (sym (ap ends (scan_under k s t h)) ∙ e)
        ∙ sym (scan_under k s t h)
    | inr h ↦ scan_over (suc k) s t h ∙ sym (scan_over k s t h)
  ]
    where
      bound :
          ((s t : ℕ)
            → ends (scan k message len s t) ≡ true
            → scan (suc k) message len s t ≡ scan k message len s t)
          → (o : Outcome (ℕ × ℕ)) → ends (o >>= λ x. scan k message len x.1 x.0) ≡ true
          → (o >>= λ x. scan (suc k) message len x.1 x.0) ≡ (o >>= λ x. scan k message len x.1 x.0)
      bound again (ok x) f = again x.1 x.0 f
      bound again panic f = refl
      bound again blocked f = refl

  scan-more :
      (d k s t : ℕ)
      → ends (scan k message len s t) ≡ true
      → scan (d + k) message len s t ≡ scan k message len s t
  scan-more zero k s t e = ap (λ n. scan n message len s t) (omega arith)
  scan-more (suc d) k s t e =
      let rest = scan-more d k s t e in
      ap (λ n. scan n message len s t) (omega arith)
      ∙ scan-suc (d + k) s t (ap ends rest ∙ e)
      ∙ rest

  -- One more fuel lets the loop end from no other start.
  abbrev IsStable : ℕ → Type 0
  IsStable k = (s : ℕ) → halts (suc k) s ≡ halts k s

  IsStable-below : (k : ℕ) → ((s : ℕ) → s < len → halts (suc k) s ≡ halts k s) → IsStable k
  IsStable-below k same s = elim (below s len) [
    | inl h ↦ same s h
    | inr h ↦ ap ends (scan_over (suc k) s 0 h) ∙ ap ends (sym (scan_over k s 0 h))
  ]

  IsStable-suc : (k : ℕ) → IsStable k → IsStable (suc k)
  IsStable-suc k same =
      IsStable-below (suc k)
        (λ s h. halts_under (suc k) s h ∙ bound (advance message s) ∙ sym (halts_under k s h))
    where
      bound : (o : Outcome (ℕ × ℕ)) → after (halts (suc k)) o ≡ after (halts k) o
      bound (ok x) = same x.1
      bound panic = refl
      bound blocked = refl

  IsStable-later : (d k s : ℕ) → IsStable k → halts (d + k) s ≡ halts k s
  IsStable-later zero k s same = ap (λ n. halts n s) (omega arith)
  IsStable-later (suc d) k s same =
      ap (λ n. halts n s) (omega arith) ∙ IsStable-later d (suc k) s (IsStable-suc k same) ∙ same s

  grows : (k : ℕ) → IsStable k ⊎ (count (halts k) len < count (halts (suc k)) len)
  grows k =
      elim (count-grows (halts k) (halts (suc k)) len
        (λ s e. ap ends (scan-suc (suc k) s 0 e) ∙ e)) [
          | inl (same, le) ↦ inl (IsStable-below k same)
          | inr more ↦ inr more
        ]

  -- Either no further start is reached, or there was one for each fuel.
  IsStable-or_reached : (k : ℕ) → IsStable k ⊎ (k < count (halts (suc k)) len)
  IsStable-or_reached zero = elim (grows zero) [
    | inl same ↦ inl same
    | inr more ↦ inr (omega (arith, more))
  ]
  IsStable-or_reached (suc k) = elim (IsStable-or_reached k) [
    | inl same ↦ inl (IsStable-suc k same)
    | inr reached ↦ elim (grows (suc k)) [
      | inl same ↦ inl same
      | inr more ↦ inr (omega (arith, more, reached))
    ]
  ]

  len-IsStable : IsStable len
  len-IsStable = elim (IsStable-or_reached len) [
    | inl same ↦ same
    | inr reached ↦ absurd (omega (arith, reached, count-le (halts (suc len)) len))
  ]

  -- The loop over the messages of a read of `len` bytes, from any start: if it ends or panics on any
  -- fuel, then it does so with the same result on the fuel `len + 1`, which is what `relay_round` gives
  -- it. So where the model says that the loop is blocked, the code's loop goes on for ever.
  pub scan_enough :
      (k s t : ℕ)
      → scan k message len s t ≢ blocked
      → scan (suc len) message len s t ≡ scan k message len s t
  scan_enough k s t n = elim (below len k) [
    | inl h ↦
        let split : (k - suc len) + suc len ≡ k = omega (arith, h) in
        let back : halts ((k - suc len) + len) s ≡ true =
          ap (λ n. ends (scan n message len s 0)) (omega (arith, h))
          ∙ ends-scan k s 0 t
          ∙ ends-blocked _ n in
        sym (
          scan-more (k - suc len) (suc len) s t (
            ends-scan (suc len) s t 0
            ∙ sym (IsStable-later (k - suc len) len s len-IsStable)
            ∙ back))
        ∙ ap (λ n. scan n message len s t) split
    | inr h ↦
        ap (λ n. scan n message len s t) (omega (arith, h))
        ∙ scan-more (suc len - k) k s t (ends-blocked _ n)
  ]
