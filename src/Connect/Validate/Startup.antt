-- ===== src/Connect/Validate/Startup.antt =====
-- `ValidateClient` on the startup messages that a PostgreSQL client sends.
use crunchy_proxy.Config.{Credentials}
use crunchy_proxy.Connect.Validate.{
  Client, on_param, read_params, validate_client, user_key, database_key,
}
use crunchy_proxy.Go.BigEndian.{be32}
use crunchy_proxy.Go.{Bytes, HasNoNul, ok, equal, equal_iff}
use crunchy_proxy.Prelude.{
  ℕ, zero, suc, ◌+◌, ◌-◌, ◌*◌, ◌≤◌, ◌<◌, ◌≡◌, ◌≢◌, refl, ap, ◌∙◌, inl, inr, false, ◌&&◌, List, [],
  ◌∷◌, ◌++◌, arith, length, length-append, length-replicate, replicate, append_assoc, All,
  Bool-cases,
}
use crunchy_proxy.Protocol.Frame.Layout.{startup_frame}
use crunchy_proxy.Protocol.Frame.{protocol_version}
use crunchy_proxy.Protocol.Message.Laws.{holding, read_string-append, read_string_eof}
use crunchy_proxy.Protocol.Message.{and_then, result_of, seek, return}
use crunchy_proxy.Protocol.Startup.Layout.{strings, startup_params}

pub equal-false : (a b : Bytes) → a ≢ b → equal a b ≡ false
equal-false a b n = elim (Bool-cases (equal a b)) [
  | inl e ↦ absurd (n ((equal_iff a b).0 e))
  | inr e ↦ e
]

not-nul : (s : Bytes) → HasNoNul s → equal s (0 ∷ []) ≡ false
unfolding equal
not-nul [] h = refl
not-nul (x ∷ s) h = ground arith

-- A string that is no key of the two is passed over.
pub read_params-skip :
    (s rest : Bytes) (fuel : ℕ) (c : Client)
    → HasNoNul s
    → s ≢ user_key
    → s ≢ database_key
    → read_params (suc fuel) c (holding (s ++ 0 ∷ rest)) ≡ read_params fuel c (holding rest)
unfolding read_params on_param
read_params-skip s rest fuel c h u d =
    ap (λ o. and_then o (on_param (read_params fuel) c)) (read_string-append s rest h)
    ∙ rw (not-nul s h, equal-false s user_key u, equal-false s database_key d)

pub read_params-user :
    (v rest : Bytes) (fuel : ℕ) (c : Client)
    → HasNoNul v
    → read_params (suc fuel) c (holding (user_key ++ 0 ∷ (v ++ 0 ∷ rest)))
      ≡ read_params fuel (record c { user = v }) (holding rest)
unfolding read_params on_param equal
read_params-user v rest fuel c h =
    ap (λ o. and_then o (on_param (read_params fuel) c))
      (read_string-append user_key (v ++ 0 ∷ rest) (omega arith))
    ∙ ap (λ o. and_then o (λ v. read_params fuel (record c { user = v.0 })))
        (read_string-append v rest h)

pub read_params-database :
    (v rest : Bytes) (fuel : ℕ) (c : Client)
    → HasNoNul v
    → read_params (suc fuel) c (holding (database_key ++ 0 ∷ (v ++ 0 ∷ rest)))
      ≡ read_params fuel (record c { database = v }) (holding rest)
unfolding read_params on_param equal
read_params-database v rest fuel c h =
    ap (λ o. and_then o (on_param (read_params fuel) c))
      (read_string-append database_key (v ++ 0 ∷ rest) (omega arith))
    ∙ ap (λ o. and_then o (λ v. read_params fuel (record c { database = v.0 })))
        (read_string-append v rest h)

-- Strings that are no keys and hold no NUL.
abbrev pub IsPlain : Bytes → Type 0
IsPlain s = HasNoNul s × (s ≢ user_key) × (s ≢ database_key)

abbrev pub ArePlain : List (Bytes × Bytes) → Type 0
ArePlain = All (λ p. IsPlain p.0 × IsPlain p.1)

-- Two rounds for each of the options, before `fuel` more.
abbrev rounds : List (Bytes × Bytes) → ℕ → ℕ
rounds [] fuel = fuel
rounds (p ∷ options) fuel = suc (suc (rounds options fuel))

rounds_sum :
    (options : List (Bytes × Bytes)) (fuel : ℕ) → rounds options fuel ≡ 2 * length options + fuel
rounds_sum [] fuel = omega arith
rounds_sum (p ∷ options) fuel = omega (arith, rounds_sum options fuel)

pub strings-append :
    (name value : Bytes) (options : List (Bytes × Bytes)) (rest : Bytes)
    → strings ((name, value) ∷ options) ++ rest
      ≡ name ++ 0 ∷ (value ++ 0 ∷ (strings options ++ rest))
strings-append name value options rest = simp append_assoc

read_params-options :
    (options : List (Bytes × Bytes)) (rest : Bytes) (fuel : ℕ) (c : Client)
    → ArePlain options
    → read_params (rounds options fuel) c (holding (strings options ++ rest))
      ≡ read_params fuel c (holding rest)
read_params-options [] rest fuel c a = refl
read_params-options ((name, value) ∷ options) rest fuel c (((n, nu, nd), (v, vu, vd)), a) =
    ap (λ b. read_params (suc (suc (rounds options fuel))) c (holding b))
      (strings-append name value options rest)
    ∙ read_params-skip name (value ++ 0 ∷ (strings options ++ rest)) (suc (rounds options fuel)) c n
        nu nd
    ∙ read_params-skip value (strings options ++ rest) (rounds options fuel) c v vu vd
    ∙ read_params-options options rest fuel c a

length-strings : (options : List (Bytes × Bytes)) → 2 * length options ≤ length (strings options)
length-strings [] = omega arith
length-strings ((name, value) ∷ options) = omega (
  arith,
  length-strings options,
  length-append name (0 ∷ (value ++ 0 ∷ strings options)),
  length-append value (0 ∷ strings options),
)

-- The NULs behind the message are empty strings.
read_params-zeros :
    (n fuel : ℕ) (c : Client)
    → n < fuel
    → read_params fuel c (holding (replicate n 0)) ≡ ok (c, holding [])
unfolding read_params on_param
read_params-zeros n zero c h = absurd (omega arith)
read_params-zeros zero (suc fuel) c h =
    ap (λ o. and_then o (on_param (read_params fuel) c)) (read_string_eof [] tt)
read_params-zeros (suc n) (suc fuel) c h =
    read_params-skip [] (replicate n 0) fuel c tt (λ e. cc) (λ e. cc)
    ∙ read_params-zeros n fuel c (omega arith)

pub sent-append :
    (u d : Bytes) (options : List (Bytes × Bytes)) (n : ℕ)
    → (strings (startup_params u d options) ++ 0 ∷ []) ++ replicate n 0
      ≡ user_key
        ++ 0 ∷ (u ++ 0 ∷ (database_key ++ 0 ∷ (d ++ 0 ∷ (strings options ++ replicate (suc n) 0))))
sent-append u d options n = simp append_assoc

pub sent-length :
    (u d : Bytes) (options : List (Bytes × Bytes)) (n : ℕ)
    → length (strings options) + suc n
      ≤ length ((strings (startup_params u d options) ++ 0 ∷ []) ++ replicate n 0)
sent-length u d options n = omega (
  arith,
  length-append (strings (startup_params u d options) ++ 0 ∷ []) (replicate n 0),
  length-append (strings (startup_params u d options)) (0 ∷ []),
  length-append u (0 ∷ (database_key ++ 0 ∷ (d ++ 0 ∷ strings options))),
  length-append d (0 ∷ strings options),
  length-replicate {A = ℕ} n 0,
)

-- What is behind the user and the database changes neither.
pub read_params-tail :
    (options : List (Bytes × Bytes)) (n fuel : ℕ) (c : Client)
    → ArePlain options
    → length (strings options) + suc n < fuel
    → read_params fuel c (holding (strings options ++ replicate (suc n) 0)) ≡ ok (c, holding [])
read_params-tail options n fuel c a h =
    ap (λ k. read_params k c (holding (strings options ++ replicate (suc n) 0))) enough
    ∙ read_params-options options (replicate (suc n) 0) (fuel - 2 * length options) c a
    ∙ read_params-zeros (suc n) _ c (omega (arith, h, length-strings options))
  where
    enough : fuel ≡ rounds options (fuel - 2 * length options)
    enough =
        omega (arith, h, length-strings options, rounds_sum options (fuel - 2 * length options))

read_params-sent :
    (u d : Bytes) (options : List (Bytes × Bytes)) (n fuel : ℕ) (c : Client)
    → HasNoNul u
    → HasNoNul d
    → ArePlain options
    → length (strings options) + suc n < fuel
    → read_params
        (suc (suc fuel))
        c
        (holding ((strings (startup_params u d options) ++ 0 ∷ []) ++ replicate n 0))
      ≡ ok (record { user = u; database = d }, holding [])
read_params-sent u d options n fuel c hu hd a h =
    ap (λ b. read_params (suc (suc fuel)) c (holding b)) (sent-append u d options n)
    ∙ read_params-user u _ (suc fuel) c hu
    ∙ read_params-database d _ fuel (record c { user = u }) hd
    ∙ read_params-tail options n fuel _ a h

-- For a startup message of the protocol version that names user `u`, database `d` and options that
-- are no keys and hold no NUL, followed by zeros: `ValidateClient` answers whether `u` and `d` are
-- the user and the database of the proxy's own credentials.
pub validate_client-startup_frame :
    (creds : Credentials) (u d : Bytes) (options : List (Bytes × Bytes)) (n : ℕ)
    → HasNoNul u
    → HasNoNul d
    → ArePlain options
    → validate_client creds (
        startup_frame (be32 protocol_version ++ (strings (startup_params u d options) ++ 0 ∷ []))
        ++ replicate n 0)
      ≡ ok (equal u creds.username && equal d creds.database)
unfolding validate_client be32 seek
validate_client-startup_frame creds u d options n hu hd a =
    ap
      (λ o.
        result_of (
          and_then o
            (λ c. return (equal c.user creds.username && equal c.database creds.database))))
      (read_params-sent u d options n _ _ hu hd a (omega (arith, sent-length u d options n)))
