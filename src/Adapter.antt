-- ===== src/Adapter.antt =====
-- adapter/: adapters of messages, their decoration, and the one that keeps an audit file. No other
-- part of the program uses them.
pub mod Chain
use crunchy_proxy.Go.Decimal.{digits}
use crunchy_proxy.Go.{Bytes, Outcome, ok, panic, ◌>>=◌, codes, equal}
use crunchy_proxy.Prelude.{ℕ, suc, Bool, List, [], ◌∷◌, ◌++◌, Option, none, some, if◌then◌else◌}

-- The package variable `file`, by its path, none for nil; what was written, and to which file; and how
-- often the clock was read.
pub record Audited : Type 0 where
  pub file : Option Bytes
  pub written : List (Bytes × Bytes)
  pub clock : ℕ

-- `Adapter`: the message, its length, and the state; the error that is returned with the next state.
-- `AdapterFunc` turns such a function into an adapter.
abbrev pub Adapter : Type 0
Adapter = Bytes → ℕ → Audited → Outcome (Option Bytes × Audited)

-- `Decorator`
abbrev pub Decorator : Type 0
Decorator = Adapter → Adapter

-- `MockAdapter.Do`
unfoldable pub mock_adapter : Adapter
mock_adapter r i s = ok (none, s)

-- `Decorate`, and `ThisDecorate`, which has the same body
unfoldable pub decorate : Adapter → List Decorator → Adapter
decorate c [] = c
decorate c (d ∷ ds) = decorate (d c) ds

-- A value of the metadata: a text, or of another type.
pub data Value : Type 0 where
  text : Bytes → Value
  other : Value

abbrev pub Metadata : Type 0
Metadata = List (Bytes × Value)

-- `metadata[key].(string)`, which panics on a missing key and on another type
unfoldable pub get_string : Bytes → Metadata → Outcome Bytes
get_string key [] = panic
get_string key ((k, text v) ∷ metadata) = if equal k key then ok v else get_string key metadata
get_string key ((k, other) ∷ metadata) = if equal k key then panic else get_string key metadata

-- The operating system: does `os.OpenFile` fail on a path, and what the clock says at each reading?
pub record Host : Type 0 where
  pub open_fails : Bytes → Bool
  pub now : ℕ → Bytes

-- The file path of the metadata, or the default.
unfoldable pub path_of : Bytes → Bytes
path_of path = if equal path [] then codes "/tmp/audit.log" else path

-- `createFile`, which leaves nil in `file` on an error
unfoldable pub create_file : Host → Metadata → Audited → Outcome Audited
unfolding get_string path_of
create_file host metadata s = do
  path ← get_string (codes "filepath") metadata
  ok (
      if host.open_fails (path_of path)
      then record s { file = none }
      else record s { file = some (path_of path) })

-- The line of a message: a length has at most twenty digits.
unfoldable pub audit_line : Bytes → ℕ → Bytes
audit_line time i = time ++ codes " msg len=" ++ digits 20 i [] ++ 10 ∷ []

-- `file.WriteString`, which gives an error on a nil file and writes nothing
abbrev pub write_line : Bytes → Audited → Audited
write_line line s = elim s.file [
  | none ↦ s
  | some path ↦ record s { written = s.written ++ (path, line) ∷ [] }
]

abbrev pub or_create : Host → Metadata → Audited → Outcome Audited
or_create host metadata s = elim s.file [ none ↦ create_file host metadata s | some path ↦ ok s ]

-- The function that `Audit` decorates an adapter with
unfoldable pub audit : Host → Metadata → Decorator
unfolding create_file audit_line
audit host metadata c r i s = do
  let time = host.now s.clock
  s ← or_create host metadata (record s { clock = suc s.clock })
  c r i (write_line (audit_line time i) s)
