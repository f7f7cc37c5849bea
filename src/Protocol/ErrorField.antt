-- ===== src/Protocol/ErrorField.antt =====
-- protocol/error.go: the field identifiers of an error message, by the names of the source less
-- `ErrorField`.
use crunchy_proxy.Prelude.{ℕ}

abbrev pub severity : ℕ
severity = b'S'

abbrev pub code : ℕ
code = b'C'

abbrev pub message : ℕ
message = b'M'

abbrev pub message_detail : ℕ
message_detail = b'D'

abbrev pub message_hint : ℕ
message_hint = b'H'

abbrev pub position : ℕ
position = b'P'

abbrev pub internal_position : ℕ
internal_position = b'p'

abbrev pub internal_query : ℕ
internal_query = b'q'

abbrev pub where_field : ℕ
where_field = b'W'

abbrev pub schema_name : ℕ
schema_name = b's'

abbrev pub table_name : ℕ
table_name = b't'

abbrev pub column_name : ℕ
column_name = b'c'

abbrev pub data_type_name : ℕ
data_type_name = b'd'

abbrev pub constraint_name : ℕ
constraint_name = b'n'

abbrev pub file : ℕ
file = b'F'

abbrev pub line : ℕ
line = b'L'

abbrev pub routine : ℕ
routine = b'R'
