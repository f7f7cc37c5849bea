-- ===== src/Connect/Login.antt =====
-- connect/auth.go, `AuthenticateClient`: the messages of a login pass between the client and the
-- master node, until the master accepts or refuses it.
pub mod Relay
pub mod Outcomes
pub mod Accepted
pub mod Sound
pub mod Cut
use crunchy_proxy.Connect.Dial.{Dialed, refused, connected, exited}
use crunchy_proxy.Connect.Validate.{is_eof}
use crunchy_proxy.Connect.{Conn, Received, send, receive}
use crunchy_proxy.Go.{Bytes, Outcome, ok, blocked, ◌>>=◌, IoError, eof, slice_to}
use crunchy_proxy.Prelude.{
  ℕ, zero, suc, ◌+◌, Bool, true, false, ◌||◌, Option, none, some, ◌==◌, length, if◌then◌else◌,
}
use crunchy_proxy.Protocol.Error.{Error, parse_error}
use crunchy_proxy.Protocol.Frame.{is_authentication_ok, get_message_type, get_terminate_message}
use crunchy_proxy.Protocol.MessageType

-- The error that is returned: one of the network, or one that the master reports.
pub data LoginError : Type 0 where
  network : IoError → LoginError
  reported : Error → LoginError

-- The results, and the connections as they are left: the master's is none where it was not made.
pub record Login : Type 0 where
  pub authenticated : Bool
  pub err : Option LoginError
  pub client : Conn
  pub master : Option Conn

-- A return behind `defer master.Close()`; none is the end of the process.
abbrev pub returned : Bool → Option LoginError → Conn → Conn → Outcome (Option Login)
returned authenticated err client master = ok (
    some (record {
      authenticated = authenticated;
      err = err;
      client = client;
      master = some (record master { closed = true });
    }))

abbrev network_error : Option IoError → Option LoginError
network_error none = none
network_error (some err) = some (network err)

abbrev accept : Received → Conn → Conn → Outcome (Option Login)
accept r client master = do
  let master = (send master get_terminate_message).1
  chunk ← slice_to r.buffer r.length
  returned true none (send client chunk).1 master

abbrev refuse : Received → Conn → Conn → Outcome (Option Login)
refuse r client master = do
  message_type ← get_message_type r.buffer
  err ←
      (if message_type == MessageType.error
        then (parse_error r.buffer >>= λ e. ok (some (reported e)))
        else ok (network_error r.err))
  chunk ← slice_to r.buffer r.length
  returned false err (send client chunk).1 master

-- What is behind the loop.
unfoldable pub finish_login : Received → Conn → Conn → Outcome (Option Login)
unfolding send
finish_login r client master = is_authentication_ok r.buffer >>= λ authenticated.
    if authenticated then accept r client master else refuse r client master

-- The end of a round, for the answer of the client and whether it has hung up. `again` is the rest of
-- the loop.
unfoldable pub answered :
    (Received → Conn → Conn → Outcome (Option Login))
    → Received
    → Conn
    → Conn
    → Bool
    → Outcome (Option Login)
unfolding send receive
answered again answer client master true = returned false (some (network eof)) client master
answered again answer client master false = do
  chunk ← slice_to answer.buffer answer.length
  let (r, master) = receive (send master chunk).1
  again r client master

-- A round, for the last message of the master and whether it is one that ends the loop.
unfoldable pub login_round :
    (Received → Conn → Conn → Outcome (Option Login))
    → Received
    → Conn
    → Conn
    → Bool
    → Outcome (Option Login)
unfolding send receive finish_login answered
login_round again r client master true = finish_login r client master
login_round again r client master false = do
  chunk ← slice_to r.buffer r.length
  let (answer, client) = receive (send client chunk).1
  answered again answer client master (is_eof answer.err)

-- The loop, for the last message of the master. Each round reads from both sides. One more than the
-- reads that are left there is fuel enough: after as many rounds both give nothing but their last
-- error, and a round that has not ended the loop is like all after it. Without fuel the loop counts as
-- one that does not end.
unfoldable pub relay_login : ℕ → Received → Conn → Conn → Outcome (Option Login)
unfolding login_round
relay_login zero r client master = blocked
relay_login (suc fuel) r client master = do
  authenticated ← is_authentication_ok r.buffer
  message_type ← get_message_type r.buffer
  login_round (relay_login fuel) r client master
      (authenticated || message_type == MessageType.error)

abbrev pub startup_answered : Conn → Received × Conn → Option IoError → Outcome (Option Login)
startup_answered client (r, master) (some err) = returned false (some (network err)) client master
startup_answered client (r, master) none =
    relay_login (suc (length client.reads + length master.reads)) r client master

abbrev pub start_login : Conn → Bytes → ℕ → Dialed → Outcome (Option Login)
start_login client message length (refused err) = ok (
    some
      (record { authenticated = false; err = some (network err); client = client; master = none }))
start_login client message length exited = ok none
start_login client message length (connected master) = do
  chunk ← slice_to message length
  let answer = receive (send master chunk).1
  startup_answered client answer answer.0.err

-- `dialed` is what `Connect` gives for the node named `master`.
unfoldable pub authenticate_client : Outcome Dialed → Conn → Bytes → ℕ → Outcome (Option Login)
unfolding relay_login receive send
authenticate_client dialed client message length = dialed >>= start_login client message length
