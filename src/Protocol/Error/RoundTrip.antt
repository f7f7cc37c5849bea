-- ===== src/Protocol/Error/RoundTrip.antt =====
-- `GetMessage` writes an error message that `ParseError` reads back.
use crunchy_proxy.Go.BigEndian.{be32}
use crunchy_proxy.Go.{Bytes, HasNoNul, ok}
use crunchy_proxy.Prelude.{
  ℕ, ◌<◌, ◌≡◌, refl, ap, ◌∙◌, [], ◌∷◌, ◌++◌, append_assoc, append-nil, arith,
}
use crunchy_proxy.Protocol.Error.Fields.{
  Fields, AreFields, encode_fields, set_fields, parse_error-frame,
}
use crunchy_proxy.Protocol.Error.{
  Error, set_field, empty_error, write_nonempty, get_message, parse_error,
}
use crunchy_proxy.Protocol.ErrorField
use crunchy_proxy.Protocol.Frame.Layout.{frame, finish-frame}
use crunchy_proxy.Protocol.Message.Laws.{holding}
use crunchy_proxy.Protocol.Message.{
  ◌>>◌, and_then, result_of, write_byte, reset_length, get_bytes, length_offset,
}
use crunchy_proxy.Protocol.MessageType

-- An optional field, before the fields behind it.
abbrev pub optional : ℕ → Bytes → Fields → Fields
optional field [] fs = fs
optional field (c ∷ value) fs = (field, c ∷ value) ∷ fs

-- The fields that `GetMessage` sends.
abbrev pub sent_fields : Error → Fields
sent_fields e =
    (ErrorField.severity, e.severity)
    ∷ (ErrorField.code, e.code)
    ∷ (ErrorField.message, e.message)
    ∷ optional ErrorField.message_detail e.detail (optional ErrorField.message_hint e.hint [])

-- What the receiver of an error knows of it: the other members are not sent.
abbrev pub sent : Error → Error
sent e = record empty_error {
  severity = e.severity;
  code = e.code;
  message = e.message;
  detail = e.detail;
  hint = e.hint;
}

-- the bytes of an optional field
abbrev optional_bytes : ℕ → Bytes → Bytes
optional_bytes field [] = []
optional_bytes field (c ∷ value) = field ∷ c ∷ (value ++ 0 ∷ [])

write_nonempty-optional_bytes :
    (field : ℕ) (value b : Bytes)
    → write_nonempty field value (holding b) ≡ ok (tt, holding (b ++ optional_bytes field value))
unfolding write_nonempty
write_nonempty-optional_bytes field [] b = rw append-nil
write_nonempty-optional_bytes field (c ∷ value) b = rw append_assoc

optional_bytes-encode_fields :
    (field : ℕ) (value : Bytes) (fs : Fields)
    → optional_bytes field value ++ encode_fields fs ≡ encode_fields (optional field value fs)
optional_bytes-encode_fields field [] fs = refl
optional_bytes-encode_fields field (c ∷ value) fs = simp append_assoc

pub get_message-frame :
    (e : Error) → get_message e ≡ ok (frame MessageType.error (encode_fields (sent_fields e)))
unfolding get_message be32
get_message-frame e =
    ap
      (λ o. result_of (
        and_then o λ _. do
          write_nonempty ErrorField.message_hint e.hint
          write_byte 0
          reset_length length_offset
          get_bytes))
      (write_nonempty-optional_bytes ErrorField.message_detail e.detail _)
    ∙ ap (λ o. result_of (and_then o λ _. do write_byte 0; reset_length length_offset; get_bytes))
        (write_nonempty-optional_bytes ErrorField.message_hint e.hint _)
    ∙ finish-frame MessageType.error (encode_fields (sent_fields e))
        (simp (append_assoc, ← optional_bytes-encode_fields))

set_fields-optional :
    (e : Error) (detail hint : Bytes)
    → set_fields
        (optional ErrorField.message_detail detail (optional ErrorField.message_hint hint []))
        (record e { detail = []; hint = [] })
      ≡ record e { detail = detail; hint = hint }
unfolding set_field
set_fields-optional e [] [] = refl
set_fields-optional e [] (c ∷ hint) = refl
set_fields-optional e (c ∷ detail) [] = refl
set_fields-optional e (c ∷ detail) (d ∷ hint) = refl

set_fields-sent_fields : (e : Error) → set_fields (sent_fields e) empty_error ≡ sent e
unfolding set_field
set_fields-sent_fields e = set_fields-optional (sent e) e.detail e.hint

-- no member that is sent holds a NUL
pub record IsSendable (e : Error) : Type 0 where
  pub severity_ok : HasNoNul e.severity
  pub code_ok : HasNoNul e.code
  pub message_ok : HasNoNul e.message
  pub detail_ok : HasNoNul e.detail
  pub hint_ok : HasNoNul e.hint

optional-AreFields :
    (field : ℕ) (value : Bytes) (fs : Fields)
    → 0 < field
    → HasNoNul value
    → AreFields fs
    → AreFields (optional field value fs)
optional-AreFields field [] fs h n a = a
optional-AreFields field (c ∷ value) fs h n a = (h, n, a)

sent_fields-AreFields : (e : Error) → IsSendable e → AreFields (sent_fields e)
sent_fields-AreFields e s = (
  omega arith,
  s.severity_ok,
  (
    omega arith,
    s.code_ok,
    (
      omega arith,
      s.message_ok,
      optional-AreFields ErrorField.message_detail e.detail _ (omega arith) s.detail_ok
          (optional-AreFields ErrorField.message_hint e.hint [] (omega arith) s.hint_ok tt),
    ),
  ),
)

-- An error whose members that are sent hold no NUL is read back from its message as it is, less
-- the members that are not sent, whatever follows the message in the buffer.
pub parse_error-get_message :
    (e : Error) (rest : Bytes)
    → IsSendable e
    → (m : Bytes) × (get_message e ≡ ok m) × (parse_error (m ++ rest) ≡ ok (sent e))
parse_error-get_message e rest s = (
  frame MessageType.error (encode_fields (sent_fields e)),
  get_message-frame e,
  parse_error-frame (sent_fields e) rest (sent_fields-AreFields e s)
      ∙ ap ok (set_fields-sent_fields e),
)
