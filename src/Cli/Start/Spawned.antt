-- ===== src/Cli/Start/Spawned.antt =====
-- What a start leads to.
use crunchy_proxy.Cli.Start.{
  StartFlags, Started, spawned, serving, foreground_args, spawn, start_serving, run_start,
}
use crunchy_proxy.Config.{Config, ConfigFile, read_config, set_config_path}
use crunchy_proxy.Go.Strings.{has_prefix}
use crunchy_proxy.Go.{Bytes, ok, ok-injective, codes, equal}
use crunchy_proxy.Prelude.{
  ◌≡◌, ◌≢◌, subst, ◌↔◌, inl, inr, Bool, true, false, List, [], ◌∷◌, Option, none, some, arith, All,
  Bool-cases, if◌then◌else◌,
}

-- No argument asks for the background.
abbrev pub NoneAsks : List Bytes → Type 0
NoneAsks = All (λ arg. has_prefix arg (codes "--background") ≡ false)

foreground_args-NoneAsks : (args : List Bytes) → NoneAsks (foreground_args args)
unfolding foreground_args
foreground_args-NoneAsks [] = tt
foreground_args-NoneAsks (arg ∷ args) = elim (Bool-cases (has_prefix arg (codes "--background"))) [
  | inl y ↦ rw (y, foreground_args) (foreground_args-NoneAsks args)
  | inr n ↦ rw (n, foreground_args) (n, foreground_args-NoneAsks args)
]

spawn-spawned :
    (args : List Bytes) (program : Bytes) (rest : List Bytes)
    → spawn args ≡ ok (spawned program rest)
    → args ≡ program ∷ rest
unfolding spawn
spawn-spawned [] program rest e = cc
spawn-spawned (arg ∷ args) program rest e = cc

not_spawned :
    (s : Started) (program : Bytes) (rest : List Bytes)
    → s ≢ spawned program rest
    → ok s ≢ ok (spawned program rest)
not_spawned s program rest n e = n (ok-injective e)

start_serving-spawned :
    (is_level : Bytes → Bool) (file : ConfigFile) (flags : StartFlags) (program : Bytes)
    (rest : List Bytes)
    → start_serving is_level file flags ≢ spawned program rest
unfolding start_serving
start_serving-spawned is_level file flags program rest e = ground arith

-- The file that `runStart` has the configuration read from; none is the library's own choice.
abbrev pub config_file : StartFlags → Option Bytes
config_file flags = if equal flags.config_path [] then none else some flags.config_path

module _ (is_level : Bytes → Bool) (file : ConfigFile) where
  run_start-spawned :
      (flags : StartFlags) (args : List Bytes) (program : Bytes) (rest : List Bytes)
      → run_start is_level file flags args ≡ ok (spawned program rest)
      → (flags.background ≡ true) × (foreground_args args ≡ program ∷ rest)
  unfolding run_start spawn
  run_start-spawned flags args program rest e = elim (Bool-cases flags.background) [
    | inl b ↦ (b, spawn-spawned (foreground_args args) program rest (rw (b, run_start) at e))
    | inr b ↦ absurd (
        not_spawned _ program rest (start_serving-spawned is_level file flags program rest)
          (rw (b, run_start) at e))
  ]

  -- A start in the background spawns a process that starts in the foreground: with a parser of the
  -- flags that sets `background` only where an argument begins with `--background`, the child's own
  -- start spawns no process.
  pub spawned_once :
      (parse : List Bytes → StartFlags)
      → ((args : List Bytes) → NoneAsks args → (parse args).background ≡ false)
      → (args : List Bytes) (program program' : Bytes) (rest rest' : List Bytes)
      → run_start is_level file (parse args) args ≡ ok (spawned program rest)
      → run_start is_level file (parse (program ∷ rest)) (program ∷ rest)
        ≢ ok (spawned program' rest')
  spawned_once parse h args program program' rest rest' e f =
      let (_, child) = run_start-spawned (parse args) args program rest e in
      let (asks, _) =
        run_start-spawned (parse (program ∷ rest)) (program ∷ rest) program' rest' f in
      let quiet = h (program ∷ rest) (subst NoneAsks child (foreground_args-NoneAsks args)) in
      absurd (ground arith)

  -- The proxy is started on a configuration exactly if it starts in the foreground, with a name of a
  -- logging level, and the configuration is what was read without error from the file of the flag.
  pub run_start_serving :
      (flags : StartFlags) (args : List Bytes) (config : Config)
      → (run_start is_level file flags args ≡ ok (serving config)) ↔ (
          (flags.background ≡ false)
          × (is_level flags.log_level ≡ true)
          × (file.read_error (config_file flags) ≡ false)
          × (file.unmarshal (config_file flags) ≡ some config))
  unfolding run_start start_serving read_config set_config_path spawn
  run_start_serving flags args config = ground arith
