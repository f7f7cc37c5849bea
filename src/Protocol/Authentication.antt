-- ===== src/Protocol/Authentication.antt =====
-- protocol/protocol.go: the authentication methods, by the names of the source less
-- `Authentication`; `AuthenticationOk` is `success`.
use crunchy_proxy.Prelude.{ℕ}

abbrev pub success : ℕ
success = 0

abbrev pub kerberos_v5 : ℕ
kerberos_v5 = 2

abbrev pub clear_text : ℕ
clear_text = 3

abbrev pub md5 : ℕ
md5 = 5

abbrev pub scm : ℕ
scm = 6

abbrev pub gss : ℕ
gss = 7

abbrev pub gss_continue : ℕ
gss_continue = 8

abbrev pub sspi : ℕ
sspi = 9
