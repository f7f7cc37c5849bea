-- ===== src/Connect/Validate/Total.antt =====
-- `ValidateClient` returns, whatever the message is.
use crunchy_proxy.Config.{Credentials}
use crunchy_proxy.Connect.Validate.{
  Client, on_param, read_params, validate_client, user_key, database_key,
}
use crunchy_proxy.Go.{Bytes, ok, equal, IoError, eof, failed}
use crunchy_proxy.Prelude.{
  ℕ, zero, suc, ◌<◌, ◌≡◌, refl, ap, inl, inr, ◌⊎◌, Bool, true, false, if◌then◌else◌, ◌&&◌, Option,
  none, some, [], ◌∷◌, arith, ◌==◌, length, drop, length-drop, Bool-cases,
}
use crunchy_proxy.Protocol.Message.Laws.{holding, read_until_nul-le}
use crunchy_proxy.Protocol.Message.{
  M, MessageBuffer, trim_nul, and_then, read_until_nul, read_string, result_of, seek, return,
}

-- A string ends with the buffer, or something was read.
read_until_nul-lt :
    (b : Bytes) → ((read_until_nul b).1 ≡ some eof) ⊎ (length (read_until_nul b).2 < length b)
unfolding read_until_nul
read_until_nul-lt [] = inl refl
read_until_nul-lt (c ∷ b) = elim (Bool-cases (c == 0)) [
  | inl z ↦ rw z (inr (omega arith))
  | inr n ↦ inr (rw n (omega (arith, read_until_nul-le b)))
]

abbrev Returns : M Client → Bytes → Type 0
Returns m b = (r : Client × MessageBuffer) × (m (holding b) ≡ ok r)

if_Returns :
    (t : Bool) (m k : M Client) (b : Bytes)
    → Returns m b
    → Returns k b
    → Returns (if t then m else k) b
if_Returns true m k b p q = p
if_Returns false m k b p q = q

module _ (fuel : ℕ) (again : Client → M Client)
    (loop : (b : Bytes) (c : Client) → length b < fuel → Returns (again c) b) where
  value_returns :
      (f : Bytes → Client) (b : Bytes)
      → length b < fuel
      → (r : Client × MessageBuffer) × (and_then (read_string (holding b)) (λ v. again (f v.0))
          ≡ ok r)
  unfolding read_string
  value_returns f b h =
      loop (read_until_nul b).2 (f (trim_nul (read_until_nul b).0))
        (omega (arith, read_until_nul-le b))

  param-Returns :
      (c : Client) (param : Bytes) (err : Option IoError) (b : Bytes)
      → (err ≡ some eof) ⊎ (length b < fuel)
      → Returns (on_param again c (param, err)) b
  unfolding on_param
  param-Returns c param err b (inl e) = rw e ((c, holding b), refl)
  param-Returns c param (some eof) b (inr h) = ((c, holding b), refl)
  param-Returns c param none b (inr h) =
      if_Returns (equal param (0 ∷ [])) _ _ b ((c, holding b), refl)
        (if_Returns (equal param user_key) _ _ b (value_returns (λ v. record c { user = v }) b h) (
          if_Returns (equal param database_key) _ _ b
            (value_returns (λ v. record c { database = v }) b h) (loop b c h)))
  param-Returns c param (some failed) b (inr h) =
      if_Returns (equal param (0 ∷ [])) _ _ b ((c, holding b), refl)
        (if_Returns (equal param user_key) _ _ b (value_returns (λ v. record c { user = v }) b h) (
          if_Returns (equal param database_key) _ _ b
            (value_returns (λ v. record c { database = v }) b h) (loop b c h)))

read_params_total :
    (fuel : ℕ) (b : Bytes) (c : Client) → length b < fuel → Returns (read_params fuel c) b
unfolding read_params read_string
read_params_total zero b c h = absurd (omega arith)
read_params_total (suc fuel) b c h =
    param-Returns fuel (read_params fuel) (read_params_total fuel) c (trim_nul (read_until_nul b).0)
      (read_until_nul b).1 (read_until_nul b).2
      (elim (read_until_nul-lt b) [ inl e ↦ inl e | inr l ↦ inr (omega arith) ])

-- `ValidateClient` gives an answer for every message, whatever bytes it holds.
pub validate_client_total :
    (creds : Credentials) (m : Bytes) → (valid : Bool) × (validate_client creds m ≡ ok valid)
unfolding validate_client seek
validate_client_total creds m =
    let ((c, b), p) =
      read_params_total (suc (length m)) (drop 8 m) (record { user = []; database = [] })
        (omega (arith, length-drop 8 m)) in
    (
      equal c.user creds.username && equal c.database creds.database,
      ap
          (λ o. result_of (
            and_then o
              (λ c. return (equal c.user creds.username && equal c.database creds.database))))
          p,
    )
