-- ===== src/Cli/Failures.antt =====
-- The commands when the proxy can be reached, and in the plain format.
use crunchy_proxy.Cli.Command.{
  AdminClient, Flags, Json, Ended, address_of, dialed, admin_server_dialer, in_format,
}
use crunchy_proxy.Go.{Bytes, Outcome, codes, equal}
use crunchy_proxy.Prelude.{◌≡◌, refl, none, arith}

module _ (json : Json) (client : AdminClient) (flags : Flags) where
  -- The address of the flags can be dialed.
  abbrev pub IsReachable : Type 0
  IsReachable =
      (client.dial (address_of flags) ≡ none) × (client.dial_timeout (address_of flags) ≡ none)

  pub dialed-rest : IsReachable → (rest : Outcome Ended) → dialed client flags rest ≡ rest
  unfolding dialed admin_server_dialer
  dialed-rest h rest = ground arith

  pub in_plain :
      (json' plain unsupported : Bytes)
      → flags.format ≡ codes "plain"
      → in_format flags json' plain unsupported ≡ plain
  unfolding in_format equal
  in_plain json' plain unsupported p = rw (p, in_format) refl
