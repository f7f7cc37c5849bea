-- ===== src/Protocol/Error/Fields.antt =====
-- A sequence of error fields, each an identifier and a NUL-terminated value, and how `ParseError`
-- reads it.
use crunchy_proxy.Go.BigEndian.{be32}
use crunchy_proxy.Go.{Bytes, HasNoNul, ok}
use crunchy_proxy.Prelude.{
  ℕ, zero, suc, ◌≤◌, ◌<◌, ◌≡◌, refl, ap, ◌∙◌, inl, inr, List, [], ◌∷◌, ◌++◌, arith, ◌==◌,
  Bool-cases, ==-zero_of_pos, length, length-append, drop, length-drop, append_assoc,
}
use crunchy_proxy.Protocol.Error.{Error, set_field, parse_fields, parse_error, empty_error}
use crunchy_proxy.Protocol.Frame.Layout.{frame}
use crunchy_proxy.Protocol.Message.Laws.{holding, read_string-append, read_until_nul-le}
use crunchy_proxy.Protocol.Message.{trim_nul, MessageBuffer, and_then, read_until_nul, result_of}
use crunchy_proxy.Protocol.MessageType

abbrev pub Fields : Type 0
Fields = List (ℕ × Bytes)

abbrev pub encode_fields : Fields → Bytes
encode_fields [] = 0 ∷ []
encode_fields ((field, value) ∷ fs) = field ∷ (value ++ 0 ∷ encode_fields fs)

-- Field identifiers are not 0, and values hold no NUL.
abbrev pub AreFields : Fields → Type 0
AreFields [] = Unit {0}
AreFields ((field, value) ∷ fs) = (0 < field) × HasNoNul value × AreFields fs

-- Each field sets its member of the record; a later one wins.
abbrev pub set_fields : Fields → Error → Error
set_fields [] e = e
set_fields ((field, value) ∷ fs) e = set_fields fs (set_field field value e)

parse_fields-cons :
    (fuel field : ℕ) (value rest : Bytes) (e : Error)
    → 0 < field
    → HasNoNul value
    → parse_fields (suc fuel) e (holding (field ∷ (value ++ 0 ∷ rest)))
      ≡ parse_fields fuel (set_field field value e) (holding rest)
unfolding parse_fields
parse_fields-cons fuel field value rest e h n =
    rw (==-zero_of_pos field h, parse_fields)
      (ap (λ o. and_then o (λ v. parse_fields fuel (set_field field v.0 e)))
        (read_string-append value rest n))

pub parse_fields-encode_fields :
    (fs : Fields) (fuel : ℕ) (rest : Bytes) (e : Error)
    → AreFields fs
    → length fs < fuel
    → parse_fields fuel e (holding (encode_fields fs ++ rest)) ≡ ok (set_fields fs e, holding rest)
unfolding parse_fields
parse_fields-encode_fields [] (suc fuel) rest e a h = refl
parse_fields-encode_fields ((field, value) ∷ fs) (suc fuel) rest e a h =
    ap (λ b. parse_fields (suc fuel) e (holding (field ∷ b)))
      (append_assoc value (0 ∷ encode_fields fs) rest)
    ∙ parse_fields-cons fuel field value (encode_fields fs ++ rest) e a.0 a.1
    ∙ parse_fields-encode_fields fs fuel rest (set_field field value e) a.2 (omega arith)
parse_fields-encode_fields _ zero rest e a h = absurd (omega arith)

length-fields-le : (fs : Fields) → length fs ≤ length (encode_fields fs)
length-fields-le [] = omega arith
length-fields-le ((field, value) ∷ fs) =
    omega (arith, length-append value (0 ∷ encode_fields fs), length-fields-le fs)

parse_fields_total :
    (fuel : ℕ) (b : Bytes) (e : Error)
    → length b < fuel
    → (r : Error × MessageBuffer) × (parse_fields fuel e (holding b) ≡ ok r)
unfolding parse_fields
parse_fields_total zero b e h = absurd (omega arith)
parse_fields_total (suc fuel) [] e h = ((e, holding []), refl)
parse_fields_total (suc fuel) (x ∷ b) e h = elim (Bool-cases (x == 0)) [
  | inl stop ↦ rw (stop, parse_fields) ((e, holding b), refl)
  | inr more ↦
      rw (more, parse_fields)
        (parse_fields_total fuel (read_until_nul b).2
          (set_field x (trim_nul (read_until_nul b).0) e) (omega (arith, read_until_nul-le b)))
]

-- `ParseError` returns on every message, whatever bytes it holds.
pub parse_error_total : (m : Bytes) → (e : Error) × (parse_error m ≡ ok e)
unfolding parse_error
parse_error_total m =
    let ((e, b), p) =
      parse_fields_total (suc (length m)) (drop 5 m) empty_error (omega (arith, length-drop 5 m)) in
    (e, ap result_of p)

-- `ParseError` reads every error message that consists of fields whose identifiers are not 0 and
-- whose values hold no NUL, whatever follows it in the buffer: a field sets its member of the
-- record, and a later field of the same identifier wins.
pub parse_error-frame :
    (fs : Fields) (rest : Bytes)
    → AreFields fs
    → parse_error (frame MessageType.error (encode_fields fs) ++ rest)
      ≡ ok (set_fields fs empty_error)
unfolding parse_error be32
parse_error-frame fs rest a = ap result_of (
    parse_fields-encode_fields fs
      (suc (length (frame MessageType.error (encode_fields fs) ++ rest))) rest empty_error a
      (omega (arith, length-append (encode_fields fs) rest, length-fields-le fs)))
