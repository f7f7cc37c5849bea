-- ===== src/Protocol/Startup.antt =====
-- protocol/startup.go and protocol/auth.go: the startup message and the password message.
pub mod Layout
use crunchy_proxy.Go.{Bytes, Outcome}
use crunchy_proxy.Prelude.{ℕ, List, [], ◌∷◌}
use crunchy_proxy.Protocol.Frame.{protocol_version}
use crunchy_proxy.Protocol.MessageType
use crunchy_proxy.Protocol.Message.{
  M, ◌>>=◌, ◌>>◌, return, run_on, length_offset, length_offset_startup, write_byte, write_int32,
  write_string, reset_length, get_bytes,
}
use crunchy_proxy.Go.{codes}

-- The loop over the options. A Go map is iterated in no fixed order: the list is the options in the
-- order that the iteration takes.
unfoldable pub write_options : List (Bytes × Bytes) → M (Unit {0})
unfolding write_string
write_options [] = return tt
write_options ((option, value) ∷ options) = do
  write_string option
  write_string value
  write_options options

unfoldable pub create_startup_message : Bytes → Bytes → List (Bytes × Bytes) → Outcome Bytes
unfolding write_byte write_int32 write_string get_bytes
create_startup_message username database options = run_on [] do
  write_int32 0
  write_int32 protocol_version
  write_string (codes "user")
  write_string username
  write_string (codes "database")
  write_string database
  write_options options
  write_byte 0
  reset_length length_offset_startup
  get_bytes

unfoldable pub create_password_message : Bytes → Outcome Bytes
unfolding write_byte write_int32 write_string get_bytes
create_password_message password = run_on [] do
  write_byte MessageType.password
  write_int32 0
  write_string password
  reset_length length_offset
  get_bytes
