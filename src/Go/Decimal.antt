-- ===== src/Go/Decimal.antt =====
-- The verbs of package fmt that the source prints numbers and booleans with.
use crunchy_proxy.Go.Slices.{Bytes, codes}
use crunchy_proxy.Prelude.{
  ℕ, zero, suc, ◌+◌, ◌-◌, ◌*◌, ◌/◌, ◌%◌, ◌^◌, ◌≤◌, ◌<◌, ◌≡◌, refl, ◌∙◌, inl, inr, Bool, true, false,
  Bool-cases, arith, [], ◌∷◌, ltb, ◌==◌, if◌then◌else◌, All, ap,
}

-- The digits of `n` before `out`; ten digits hold every 32-bit number.
unfoldable pub digits : ℕ → ℕ → Bytes → Bytes
digits zero n out = out
digits (suc fuel) n out =
    let out' = (b'0' + n % 10) ∷ out in
    let more = digits fuel (n / 10) out' in if ltb n 10 then out' else more

unfoldable pub show_nat : ℕ → Bytes
unfolding digits
show_nat n = digits 10 n []

-- `%d` of an int32, by its bit pattern
unfoldable pub show_int32 : ℕ → Bytes
unfolding show_nat
show_int32 n = if ltb n (2 ^ 31) then show_nat n else b'-' ∷ show_nat (2 ^ 32 - n)

-- `%t`
unfoldable pub show_bool : Bool → Bytes
show_bool true = codes "true"
show_bool false = codes "false"

abbrev pub IsDigit : ℕ → Type 0
IsDigit c = (b'0' ≤ c) × (c ≤ b'9')

-- The number that decimal digits spell behind `n`.
abbrev pub value : ℕ → Bytes → ℕ
value n [] = n
value n (c ∷ s) = value (n * 10 + (c - b'0')) s

-- The bit pattern of the int32 that a text spells.
abbrev pub read_int32 : Bytes → ℕ
read_int32 [] = 0
read_int32 (c ∷ s) = if c == b'-' then 2 ^ 32 - value 0 s else value 0 (c ∷ s)

abbrev ten_to : ℕ → ℕ
ten_to zero = 1
ten_to (suc k) = 10 * ten_to k

value-digits :
    (fuel n : ℕ) (out : Bytes) → n < ten_to fuel → value 0 (digits fuel n out) ≡ value n out
unfolding digits
value-digits zero n out h = ap (λ k. value k out) (omega arith)
value-digits (suc fuel) n out h = elim (Bool-cases (ltb n 10)) [
  | inl last ↦ rw (last, digits) (ap (λ k. value k out) (ground arith))
  | inr more ↦
      rw (more, digits)
        (value-digits fuel (n / 10) ((b'0' + n % 10) ∷ out) (omega arith)
          ∙ ap (λ k. value k out) (omega arith))
]

digits-IsDigit : (fuel n : ℕ) (out : Bytes) → All IsDigit out → All IsDigit (digits fuel n out)
unfolding digits
digits-IsDigit zero n out h = h
digits-IsDigit (suc fuel) n out h = elim (Bool-cases (ltb n 10)) [
  | inl last ↦ rw (last, digits) (omega arith, h)
  | inr more ↦
      rw (more, digits) (digits-IsDigit fuel (n / 10) ((b'0' + n % 10) ∷ out) (omega arith, h))
]

read_int32-IsDigit : (s : Bytes) → All IsDigit s → read_int32 s ≡ value 0 s
read_int32-IsDigit [] h = refl
read_int32-IsDigit (c ∷ s) h = ground arith

-- Every int32 is read back from its decimal print, the negative ones too.
pub read_int32-show_int32 : (n : ℕ) → n < 2 ^ 32 → read_int32 (show_int32 n) ≡ n
unfolding show_int32 show_nat
read_int32-show_int32 n h = elim (Bool-cases (ltb n (2 ^ 31))) [
  | inl small ↦
      rw (small, show_int32)
        (read_int32-IsDigit (digits 10 n []) (digits-IsDigit 10 n [] tt)
          ∙ value-digits 10 n [] (omega arith))
  | inr large ↦
      rw (large, show_int32) (rw (value-digits 10 (2 ^ 32 - n) [] (omega arith)) (omega arith))
]
