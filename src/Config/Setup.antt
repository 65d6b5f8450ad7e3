-- ===== src/Config/Setup.antt =====
-- initUdrContext of internal/context/context.go and InitUdrContext of internal/util/init_context.go: what
-- a context takes from the configuration.
use Prim.Native.String.{String, ◌++◌}
use free5gc_udr.Base.{◌==◌, if◌then◌else◌, Option, none, some}
use free5gc_udr.Base.Int.{ℤ, pos, ℤ_eq}
use free5gc_udr.Context.{UdrContext}
use free5gc_udr.Config.{Sbi, Config}

-- What the start asks of the outside: os.Getenv and a new UUID.
pub record Start : Type 0 where
  pub getenv : String → String
  pub uuid : String

module _ (start : Start) where
  -- The address in the environment, or the one of the configuration, or the default.
  unfoldable pub binding : String → String
  binding given =
      if start.getenv given == ""
      then (if given == "" then "0.0.0.0" else given)
      else start.getenv given

  -- The address that is registered, or the default.
  register : String → String
  register given = if given == "" then "127.0.0.4" else given

  port_of : ℤ → ℤ
  port_of given = if ℤ_eq given (pos 0) then pos 8000 else given

  unfoldable pub with_sbi : Option Sbi → UdrContext → UdrContext
  unfolding binding register port_of
  with_sbi none c = record c {
    nf_id = start.uuid;
    register_ipv4 = "127.0.0.4";
    sbi_port = pos 8000;
  }
  with_sbi (some s) c = record c {
    nf_id = start.uuid;
    register_ipv4 = register s.register_ipv4;
    sbi_port = port_of s.port;
    uri_scheme = s.scheme;
    binding_ipv4 = binding s.binding_ipv4;
  }

  unfoldable pub with_nrf_uri : String → UdrContext → UdrContext
  with_nrf_uri given c = record c {
    nrf_uri = if given == "" then c.uri_scheme ++ "://127.0.0.1:29510" else given;
  }

  -- Both pointers of the configuration are read: a nil one is a panic, which is `none`.
  unfoldable pub init_udr_context : Config → UdrContext → Option UdrContext
  unfolding with_sbi with_nrf_uri
  init_udr_context cfg c = elim cfg.info [
    | none ↦ none
    | some i ↦ elim cfg.configuration [
      | none ↦ none
      | some conf ↦ some (record (with_nrf_uri conf.nrf_uri (with_sbi conf.sbi c)) {
        nrf_cert_pem = conf.nrf_cert_pem;
      })
    ]
  ]

  -- The function of the package util does not set the certificate of the NRF.
  unfoldable pub util_init_udr_context : Config → UdrContext → Option UdrContext
  unfolding with_sbi with_nrf_uri
  util_init_udr_context cfg c = elim cfg.info [
    | none ↦ none
    | some i ↦ elim cfg.configuration [
      | none ↦ none
      | some conf ↦ some (with_nrf_uri conf.nrf_uri (with_sbi conf.sbi c))
    ]
  ]
