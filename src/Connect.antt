-- ===== src/Connect.antt =====
-- connect/connect.go, `Send` and `Receive`, and the connections that package connect works on. The
-- modules below model the rest of the package.
pub mod Validate
pub mod Buffers
pub mod Login
pub mod Password
pub mod Tls
pub mod Dial
use crunchy_proxy.Go.{Bytes, IoError}
use crunchy_proxy.Prelude.{ℕ, Bool, List, [], ◌∷◌, ◌++◌, Option, none, some, length, take, min}
use crunchy_proxy.Protocol.Message.{fill}

-- A zeroed buffer of 4096 bytes after a read, the number of bytes read, and the error.
pub record Received : Type 0 where
  pub buffer : Bytes
  pub length : ℕ
  pub err : Option IoError

-- A `net.Conn`, by what its calls will give: `reads` holds what each `Read` takes off the connection
-- and its error, `behind` the error that every `Read` gives once they are used up, and `writes` the
-- error of each `Write`. `sent` holds what was passed to `Write`, in order. A `Read` that never
-- returns is not among them: the function that has called it stays there.
pub record Conn : Type 0 where
  pub reads : List (Bytes × Option IoError)
  pub behind : IoError
  pub writes : List (Option IoError)
  pub sent : List Bytes
  pub closed : Bool

abbrev pub buffer_size : ℕ
buffer_size = 4096

abbrev next_error : List (Option IoError) → Option IoError
next_error [] = none
next_error (err ∷ writes) = err

abbrev pub later_writes : List (Option IoError) → List (Option IoError)
later_writes [] = []
later_writes (err ∷ writes) = writes

-- The number of bytes written is used nowhere, and left out.
unfoldable pub send : Conn → Bytes → Option IoError × Conn
send c message = (
  next_error c.writes,
  record c { writes = later_writes c.writes; sent = c.sent ++ message ∷ [] },
)

-- The buffer after a read of `chunk`, of which a `Read` takes no more than the buffer holds.
unfoldable pub received : Bytes × Option IoError → Received
received (chunk, err) = record {
  buffer = fill buffer_size chunk;
  length = min buffer_size (length chunk);
  err = err;
}

unfoldable pub receive : Conn → Received × Conn
unfolding received
receive c = elim c.reads [
  | [] ↦ (received ([], some c.behind), c)
  | chunk ∷ reads ↦ (received chunk, record c { reads = reads })
]
