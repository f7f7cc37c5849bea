-- ===== src/Tests/Login.antt =====
-- Concrete logins, and a proxy that is set up.
use crunchy_proxy.Config.{StringMap, Node}
use crunchy_proxy.Connect.Buffers.{says_ok, AreBytes}
use crunchy_proxy.Connect.Dial.{connected}
use crunchy_proxy.Connect.Login.Relay.{
  told, authenticate_client-accepted, authenticate_client-rejected,
}
use crunchy_proxy.Connect.Login.Sound.{EndsSound, authenticate_client-EndsSound}
use crunchy_proxy.Connect.Login.{reported, authenticate_client}
use crunchy_proxy.Connect.{Conn, buffer_size}
use crunchy_proxy.Go.BigEndian.{be32}
use crunchy_proxy.Go.{Bytes, eof, ok, codes, equal}
use crunchy_proxy.Prelude.{
  ◌*◌, length, ◌≡◌, refl, ◌||◌, true, false, none, some, [], ◌∷◌, ◌++◌, ◌==◌, arith,
}
use crunchy_proxy.Protocol.Error.Fields.{parse_error_total}
use crunchy_proxy.Protocol.Frame.{get_terminate_message}
use crunchy_proxy.Protocol.Message.{fill, first_or_zero}
use crunchy_proxy.Protocol.MessageType
use crunchy_proxy.Proxy.Admission.Safe.{Ends, KeepsFailing, IsVouched, admit-Ends}
use crunchy_proxy.Proxy.Admission.{admit}
use crunchy_proxy.Proxy.Setup.Built.{built}
use crunchy_proxy.Proxy.Setup.Layout.{AllConnect, pools_of, positions, opened_after}
use crunchy_proxy.Proxy.Setup.Needed.{AllConnects, new_proxy-AllConnects}
use crunchy_proxy.Proxy.Setup.Ready.{new_proxy-built}
use crunchy_proxy.Proxy.Setup.{Environment, new_proxy}
use crunchy_proxy.Tests.Connect.{creds, viper, quiet, tls, no_md5}

abbrev pub accepting : Bytes
accepting = b'R' ∷ 0 ∷ 0 ∷ 0 ∷ 8 ∷ 0 ∷ 0 ∷ 0 ∷ 0 ∷ []

abbrev pub asking : Bytes
asking = b'R' ∷ 0 ∷ 0 ∷ 0 ∷ 8 ∷ 0 ∷ 0 ∷ 0 ∷ 3 ∷ []

abbrev failing : Bytes
failing = b'E' ∷ []

pub says_ok-accepting : says_ok accepting ≡ true
unfolding equal fill be32
says_ok-accepting = refl

says_ok-failing : says_ok failing ≡ false
unfolding equal fill be32
says_ok-failing = refl

pub asking-goes_on : (says_ok asking || first_or_zero asking == MessageType.error) ≡ false
unfolding equal fill be32
asking-goes_on = refl

authenticate_client-accepted_example :
    authenticate_client
      (ok (connected (record quiet { reads = (asking, none) ∷ (accepting, none) ∷ [] })))
      (record quiet { reads = (codes "pw", none) ∷ [] })
      (codes "startup")
      7
    ≡ ok (
        some (record {
          authenticated = true;
          err = none;
          client = record (told quiet (asking ∷ accepting ∷ [])) { reads = [] };
          master =
              some
                (record (told quiet (codes "startup" ∷ codes "pw" ∷ get_terminate_message ∷ [])) {
                  reads = [];
                  closed = true;
                });
        }))
authenticate_client-accepted_example =
    authenticate_client-accepted quiet quiet (codes "startup") 7 (omega arith)
      ((asking, codes "pw") ∷ []) accepting []
      ((omega arith, omega arith, omega arith, asking-goes_on), tt) (omega arith) (omega arith)
      says_ok-accepting

authenticate_client-rejected_example :
    authenticate_client
      (ok (connected (record quiet { reads = (failing, none) ∷ [] })))
      (record quiet { reads = [] })
      (codes "startup")
      7
    ≡ ok (
        some (record {
          authenticated = false;
          err = some (reported (parse_error_total (fill buffer_size failing)).0);
          client = record (told quiet (failing ∷ [])) { reads = [] };
          master = some (record (told quiet (codes "startup" ∷ [])) { reads = []; closed = true });
        }))
authenticate_client-rejected_example =
    authenticate_client-rejected quiet quiet (codes "startup") 7 (omega arith) [] failing [] tt
      (omega arith) (omega arith) (parse_error_total (fill buffer_size failing)).0 says_ok-failing
      refl (parse_error_total (fill buffer_size failing)).1

abbrev pub willing : Conn
willing = record quiet { reads = (asking, none) ∷ (accepting, none) ∷ [] }

-- A startup message of user `u` and database `d`, and a password.
abbrev knocking : Conn
knocking = record quiet {
  reads =
      (
        0
            ∷ 0
            ∷ 0
            ∷ 27
            ∷ 0
            ∷ 3
            ∷ 0
            ∷ 0
            ∷ (codes "user" ++ 0 ∷ b'u' ∷ 0 ∷ (codes "database" ++ 0 ∷ b'd' ∷ 0 ∷ 0 ∷ [])),
        none,
      )
      ∷ (codes "pw", none)
      ∷ [];
}

authenticate_client-EndsSound_example :
    EndsSound eof
      (authenticate_client (ok (connected willing)) knocking (codes "startup") 7)
      willing.reads
authenticate_client-EndsSound_example =
    authenticate_client-EndsSound knocking willing (codes "startup") 7 (omega arith) (omega arith)
      (omega arith)

willing-bytes : AreBytes willing.reads
willing-bytes = omega arith

admit-Ends_example :
    Ends
      (admit tls creds (ok (connected willing)) knocking)
      (KeepsFailing tls creds willing willing-bytes (λ c h. h) knocking)
      (IsVouched tls creds willing willing-bytes (λ c h. h) knocking)
admit-Ends_example = admit-Ends tls creds willing willing-bytes (λ c h. h) knocking (omega arith)

abbrev pub env : Environment
env = record {
  md5_sum = no_md5;
  creds = creds;
  viper = viper;
  connect = λ k host. ok (connected quiet);
}

pub env-AllConnect : AllConnect env
env-AllConnect k host = (quiet, refl, tt)

abbrev pub master_node : Node
master_node = record { host_port = codes "h"; role = codes "master"; metadata = []; healthy = true }

new_proxy-built_example :
    new_proxy env 2 ((codes "m", master_node) ∷ [])
    ≡ ok (
        some (
          opened_after 2 0 ((codes "m", master_node) ∷ []),
          built
              (pools_of 2 0 ((codes "m", master_node) ∷ []))
              (positions true 0 ((codes "m", master_node) ∷ []))
              (positions false 0 ((codes "m", master_node) ∷ []))
              1
              [],
        ))
new_proxy-built_example = new_proxy-built env 2 ((codes "m", master_node) ∷ []) env-AllConnect

abbrev one_master : StringMap Node
one_master = (codes "m", master_node) ∷ []

new_proxy-AllConnects_example :
    (opened_after 2 0 one_master ≡ 2 * length one_master) × AllConnects env 2 0 one_master
new_proxy-AllConnects_example =
    new_proxy-AllConnects env 2 one_master (new_proxy-built env 2 one_master env-AllConnect)
