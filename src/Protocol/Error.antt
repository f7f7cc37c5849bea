-- ===== src/Protocol/Error.antt =====
-- protocol/error.go: the error record, the message that it is sent as, and the parser.
pub mod Fields
pub mod RoundTrip
use crunchy_proxy.Go.{Bytes, Outcome, blocked, codes}
use crunchy_proxy.Prelude.{ℕ, zero, suc, [], ◌∷◌, ◌++◌, ◌==◌, length, if◌then◌else◌}
use crunchy_proxy.Protocol.ErrorField
use crunchy_proxy.Protocol.MessageType
use crunchy_proxy.Protocol.Message.{
  M, ◌>>=◌, ◌>>◌, return, run_on, length_offset, write_byte, write_int32, write_string,
  reset_length, get_bytes, seek, read_byte, read_string,
}

-- A field that the source leaves out of a literal is the empty string.
pub record Error : Type 0 where
  pub severity : Bytes
  pub code : Bytes
  pub message : Bytes
  pub detail : Bytes
  pub hint : Bytes
  pub position : Bytes
  pub internal_position : Bytes
  pub internal_query : Bytes
  pub where_field : Bytes
  pub schema_name : Bytes
  pub table_name : Bytes
  pub column_name : Bytes
  pub data_type_name : Bytes
  pub constraint : Bytes
  pub file : Bytes
  pub line : Bytes
  pub routine : Bytes

-- `new(Error)`
abbrev pub empty_error : Error
empty_error = record {
  severity = [];
  code = [];
  message = [];
  detail = [];
  hint = [];
  position = [];
  internal_position = [];
  internal_query = [];
  where_field = [];
  schema_name = [];
  table_name = [];
  column_name = [];
  data_type_name = [];
  constraint = [];
  file = [];
  line = [];
  routine = [];
}

-- `Error()`, the text of the error
unfoldable pub error_text : Error → Bytes
error_text e = codes "pg: " ++ e.severity ++ codes ": " ++ e.message

-- `if value != "" { … }`
unfoldable pub write_nonempty : ℕ → Bytes → M (Unit {0})
unfolding write_byte write_string
write_nonempty field [] = return tt
write_nonempty field (c ∷ value) = do write_byte field; write_string (c ∷ value); return tt

unfoldable pub get_message : Error → Outcome Bytes
unfolding write_byte write_int32 write_string get_bytes
get_message e = run_on [] do
  write_byte MessageType.error
  write_int32 0
  write_byte ErrorField.severity
  write_string e.severity
  write_byte ErrorField.code
  write_string e.code
  write_byte ErrorField.message
  write_string e.message
  write_nonempty ErrorField.message_detail e.detail
  write_nonempty ErrorField.message_hint e.hint
  write_byte 0
  reset_length length_offset
  get_bytes

-- the `switch` of `ParseError`
unfoldable pub set_field : ℕ → Bytes → Error → Error
set_field field value e =
    if field == ErrorField.severity
    then record e { severity = value }
    else if field == ErrorField.code
    then record e { code = value }
    else if field == ErrorField.message
    then record e { message = value }
    else if field == ErrorField.message_detail
    then record e { detail = value }
    else if field == ErrorField.message_hint
    then record e { hint = value }
    else if field == ErrorField.position
    then record e { position = value }
    else if field == ErrorField.internal_position
    then record e { internal_position = value }
    else if field == ErrorField.internal_query
    then record e { internal_query = value }
    else if field == ErrorField.where_field
    then record e { where_field = value }
    else if field == ErrorField.schema_name
    then record e { schema_name = value }
    else if field == ErrorField.table_name
    then record e { table_name = value }
    else if field == ErrorField.column_name
    then record e { column_name = value }
    else if field == ErrorField.data_type_name
    then record e { data_type_name = value }
    else if field == ErrorField.constraint_name
    then record e { constraint = value }
    else if field == ErrorField.file
    then record e { file = value }
    else if field == ErrorField.line
    then record e { line = value }
    else if field == ErrorField.routine
    then record e { routine = value }
    else e

-- The loop of `ParseError`: it ends at a field identifier 0, which `ReadByte` also returns at the
-- end of the buffer. Without fuel the loop counts as one that does not end: each round reads a
-- byte, so that one more than the buffer's length is fuel enough.
unfoldable pub parse_fields : ℕ → Error → M Error
unfolding read_byte read_string set_field
parse_fields zero e = λ _. blocked
parse_fields (suc fuel) e = read_byte >>= λ r.
    if r.0 == 0
    then return e
    else do value ← read_string; parse_fields fuel (set_field r.0 value.0 e)

unfoldable pub parse_error : Bytes → Outcome Error
unfolding seek parse_fields
parse_error message = run_on message do seek 5; parse_fields (suc (length message)) empty_error
