-- ===== src/Connect/Validate/Confusion.antt =====
-- `ValidateClient` does not step over the value of a parameter that it does not know.
use crunchy_proxy.Config.{Credentials}
use crunchy_proxy.Connect.Validate.{Client, read_params, validate_client, user_key}
use crunchy_proxy.Connect.Validate.Startup.{
  IsPlain, ArePlain, read_params-skip, read_params-user, read_params-database, read_params-tail,
  sent-append, sent-length, strings-append,
}
use crunchy_proxy.Go.BigEndian.{be32}
use crunchy_proxy.Go.{Bytes, HasNoNul, ok, equal}
use crunchy_proxy.Prelude.{
  ℕ, suc, ◌+◌, ◌≤◌, ◌<◌, ◌≡◌, ap, ◌∙◌, ◌&&◌, List, [], ◌∷◌, ◌++◌, arith, length, replicate,
  length-append,
}
use crunchy_proxy.Protocol.Frame.Layout.{startup_frame}
use crunchy_proxy.Protocol.Frame.{protocol_version}
use crunchy_proxy.Protocol.Message.Laws.{holding}
use crunchy_proxy.Protocol.Message.{and_then, result_of, seek, return}
use crunchy_proxy.Protocol.Startup.Layout.{strings, startup_params}

length-strings_le :
    (name value other value' : Bytes) (options : List (Bytes × Bytes))
    → length (strings options) ≤ length (strings ((name, value) ∷ (other, value') ∷ options))
length-strings_le name value other value' options = omega (
  arith,
  length-append name (0 ∷ (value ++ 0 ∷ (other ++ 0 ∷ (value' ++ 0 ∷ strings options)))),
  length-append value (0 ∷ (other ++ 0 ∷ (value' ++ 0 ∷ strings options))),
  length-append other (0 ∷ (value' ++ 0 ∷ strings options)),
  length-append value' (0 ∷ strings options),
)

read_params-confused :
    (u d name other value : Bytes) (options : List (Bytes × Bytes)) (n fuel : ℕ) (c : Client)
    → HasNoNul u
    → HasNoNul d
    → IsPlain name
    → HasNoNul other
    → IsPlain value
    → ArePlain options
    → length (strings options) + suc n < fuel
    → read_params (suc (suc (suc (suc (suc fuel))))) c (
        holding (
          (strings (startup_params u d ((name, user_key) ∷ (other, value) ∷ options)) ++ 0 ∷ [])
          ++ replicate n 0))
      ≡ ok (record { user = other; database = d }, holding [])
read_params-confused u d name other value options n fuel c hu hd (hn, nu, nd) ho (hv, vu, vd) a h =
    ap (λ b. read_params (suc (suc (suc (suc (suc fuel))))) c (holding b))
      (sent-append u d ((name, user_key) ∷ (other, value) ∷ options) n)
    ∙ read_params-user u _ (suc (suc (suc (suc fuel)))) c hu
    ∙ read_params-database d _ (suc (suc (suc fuel))) (record c { user = u }) hd
    ∙ ap (λ b. read_params (suc (suc (suc fuel))) (record { user = u; database = d }) (holding b))
        split
    ∙ read_params-skip name _ (suc (suc fuel)) _ hn nu nd
    ∙ read_params-user other _ (suc fuel) _ ho
    ∙ read_params-skip value _ fuel _ hv vu vd
    ∙ read_params-tail options n fuel _ a h
  where
    split :
        strings ((name, user_key) ∷ (other, value) ∷ options) ++ replicate (suc n) 0
        ≡ name
          ++ 0
            ∷ (user_key
                ++ 0 ∷ (other ++ 0 ∷ (value ++ 0 ∷ (strings options ++ replicate (suc n) 0))))
    split =
        strings-append name user_key ((other, value) ∷ options) _
        ∙ ap (λ b. name ++ 0 ∷ (user_key ++ 0 ∷ b)) (strings-append other value options _)

-- A startup message may name any user at all: when its first option has the value `user`, then
-- `ValidateClient` compares the name of the second option with the user of the proxy's credentials
-- instead, the other names and values being no keys and none holding a NUL.
pub validate_client_confused :
    (creds : Credentials) (u d name other value : Bytes) (options : List (Bytes × Bytes)) (n : ℕ)
    → HasNoNul u
    → HasNoNul d
    → IsPlain name
    → HasNoNul other
    → IsPlain value
    → ArePlain options
    → validate_client creds (
        startup_frame (
          be32 protocol_version
          ++ (strings (startup_params u d ((name, user_key) ∷ (other, value) ∷ options)) ++ 0 ∷ []))
        ++ replicate n 0)
      ≡ ok (equal other creds.username && equal d creds.database)
unfolding validate_client be32 seek
validate_client_confused creds u d name other value options n hu hd hn ho hv a =
    ap
      (λ o.
        result_of (
          and_then o
            (λ c. return (equal c.user creds.username && equal c.database creds.database))))
      (read_params-confused u d name other value options n _ _ hu hd hn ho hv a (
        omega (
          arith,
          sent-length u d ((name, user_key) ∷ (other, value) ∷ options) n,
          length-strings_le name user_key other value options,
        )))
