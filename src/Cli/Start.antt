-- ===== src/Cli/Start.antt =====
-- cli/start.go: `runStart`, which starts a proxy in its own process or in one that it spawns.
pub mod Spawned
use crunchy_proxy.Config.{Config, ConfigFile, set_config_path, read_config}
use crunchy_proxy.Go.Strings.{has_prefix}
use crunchy_proxy.Go.{Bytes, Outcome, ok, panic, codes, equal}
use crunchy_proxy.Prelude.{Bool, List, [], ◌∷◌, Option, none, some, if◌then◌else◌, not}

-- The flags `background`, `config` and `log-level`
pub record StartFlags : Type 0 where
  pub background : Bool
  pub config_path : Bytes
  pub log_level : Bytes

-- Their defaults, `FlagBackground`, `FlagConfigPath` and `FlagLogLevel`
abbrev pub default_start_flags : StartFlags
default_start_flags = record { background = Bool.false; config_path = []; log_level = codes "info" }

-- How `runStart` goes on: by a child process with a program and its arguments, by `server.Start` on a
-- configuration, or with the end of the process in a `Fatal` of the logger.
pub data Started : Type 0 where
  spawned : Bytes → List Bytes → Started
  serving : Config → Started
  fatal : Started

-- The loop over `os.Args`
unfoldable pub foreground_args : List Bytes → List Bytes
unfolding has_prefix
foreground_args [] = []
foreground_args (arg ∷ args) =
    if has_prefix arg (codes "--background")
    then foreground_args args
    else arg ∷ foreground_args args

-- `exec.Command(args[0], args[1:]...)`
unfoldable pub spawn : List Bytes → Outcome Started
spawn [] = panic
spawn (program ∷ args) = ok (spawned program args)

abbrev pub serve : Option Config → Started
serve none = fatal
serve (some config) = serving config

-- The rest of the function, for a process that serves itself. `is_level` tells the names that
-- `logrus.ParseLevel` accepts.
unfoldable pub start_serving : (Bytes → Bool) → ConfigFile → StartFlags → Started
unfolding read_config set_config_path
start_serving is_level file flags =
    if is_level flags.log_level
    then serve (
        read_config file
          (if equal flags.config_path [] then none else set_config_path flags.config_path none))
    else fatal

unfoldable pub run_start : (Bytes → Bool) → ConfigFile → StartFlags → List Bytes → Outcome Started
unfolding foreground_args spawn start_serving
run_start is_level file flags os_args =
    if flags.background
    then spawn (foreground_args os_args)
    else ok (start_serving is_level file flags)
