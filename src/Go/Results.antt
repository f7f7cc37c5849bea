-- ===== src/Go/Results.antt =====
-- How a Go statement ends: with a value, in a run-time panic, or waiting for ever on a channel.
use crunchy_proxy.Prelude.{◌≡◌, refl}

pub data Outcome {ℓ} (A : Type ℓ) : Type ℓ where
  ok : A → Outcome A
  panic : Outcome A
  blocked : Outcome A

infixl 5 ◌>>=◌ ◌>>◌
abbrev pub ◌>>=◌ {ℓ κ} : {A : Type ℓ} {B : Type κ} → Outcome A → (A → Outcome B) → Outcome B
ok a >>= f = f a
panic >>= f = panic
blocked >>= f = blocked

abbrev pub ◌>>◌ {ℓ} : {B : Type ℓ} → Outcome (Unit {0}) → Outcome B → Outcome B
m >> k = m >>= λ _. k

-- What `error` values the source tells apart: `io.EOF`, any other I/O error, or none.
pub data IoError : Type 0 where
  eof failed : IoError

pub >>=-eq-ok {ℓ κ} :
    {A : Type ℓ} {B : Type κ} {y : B} (o : Outcome A) (k : A → Outcome B)
    → (o >>= k) ≡ ok y
    → (x : A) × (o ≡ ok x) × (k x ≡ ok y)
>>=-eq-ok panic k e = cc
>>=-eq-ok blocked k e = cc
>>=-eq-ok (ok x) k e = (x, refl, e)

pub ok-injective {ℓ} : {A : Type ℓ} {a b : A} → ok a ≡ ok b → a ≡ b
ok-injective e = cc
