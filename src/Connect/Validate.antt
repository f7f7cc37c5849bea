-- ===== src/Connect/Validate.antt =====
-- connect/auth.go, `ValidateClient`: are the user and the database of a startup message those of the
-- proxy's own connections?
pub mod Startup
pub mod Confusion
pub mod Total
use crunchy_proxy.Config.{Credentials}
use crunchy_proxy.Go.{Bytes, Outcome, blocked, IoError, eof, failed, codes, equal}
use crunchy_proxy.Prelude.{
  ℕ, zero, suc, Bool, true, false, ◌&&◌, ◌||◌, Option, none, some, [], ◌∷◌, length, if◌then◌else◌,
}
use crunchy_proxy.Protocol.Message.{M, ◌>>=◌, ◌>>◌, return, run_on, seek, read_string}

abbrev pub is_eof : Option IoError → Bool
is_eof (some eof) = true
is_eof _ = false

-- `clientUser` and `clientDatabase`
pub record Client : Type 0 where
  pub user : Bytes
  pub database : Bytes

abbrev pub user_key : Bytes
user_key = codes "user"

abbrev pub database_key : Bytes
database_key = codes "database"

-- The body of the loop, for the string that `ReadString` gave; `again` is the rest of the loop.
unfoldable pub on_param : (Client → M Client) → Client → Bytes × Option IoError → M Client
on_param again c (param, err) =
    if is_eof err || equal param (0 ∷ [])
    then return c
    else if equal param user_key
    then (read_string >>= λ v. again (record c { user = v.0 }))
    else if equal param database_key
    then (read_string >>= λ v. again (record c { database = v.0 }))
    else again c

-- The loop over the strings of the message. Each round reads a byte or meets the end, so that one
-- more than the length of the buffer is fuel enough; without fuel it counts as one that does not end.
unfoldable pub read_params : ℕ → Client → M Client
read_params zero c = λ _. blocked
read_params (suc fuel) c = read_string >>= on_param (read_params fuel) c

unfoldable pub validate_client : Credentials → Bytes → Outcome Bool
unfolding seek
validate_client creds message = run_on message do
  seek 8
  c ← read_params (suc (length message)) (record { user = []; database = [] })
  return (equal c.user creds.username && equal c.database creds.database)
