-- ===== src/Cli.antt =====
-- cli/: the commands of the program. The libraries cobra and pflag, which parse the command line, are
-- not modelled: a command is a function of its flags. The grpc library with the server behind it is a
-- parameter, and so is package encoding/json.
pub mod Command
pub mod Start
pub mod Listing
pub mod Failures
pub mod Served
pub mod Counted
