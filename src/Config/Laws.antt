-- ===== src/Config/Laws.antt =====
-- What the validation ensures, and what the two functions that set up a context have in common.
use free5gc_udr.Base.{◌≡◌, false, ◌&&◌, ◌==◌, none, some, arith}
use free5gc_udr.Base.Int.{ℤ_eq}
use free5gc_udr.Context.{UdrContext}
use free5gc_udr.Config.{
  Config, Configuration, Sbi, Metrics, Govalidator, validate, configuration_validate, same_binding,
}
use free5gc_udr.Config.Setup.{Start, init_udr_context, util_init_udr_context}

module _ (v : Govalidator) where
  -- In a configuration that is validated without an error, the service and its metrics do not listen
  -- at the same address and port.
  pub validate_separates :
      (cfg : Config) (c : Configuration) (s : Sbi) (m : Metrics)
      → cfg.configuration ≡ some c
      → c.sbi ≡ some s
      → c.metrics ≡ some m
      → (validate v cfg).1 ≡ none
      → (ℤ_eq m.port s.port && s.binding_ipv4 == m.binding_ipv4) ≡ false
  unfolding validate configuration_validate same_binding
  validate_separates cfg c s m given sbi metrics valid = ground (arith, given, sbi, metrics, valid)

-- The function of the package util leaves the context that the start leaves, but for the certificate of
-- the NRF.
pub util_init_udr_context-init_udr_context :
    (start : Start) (cfg : Config) (c d e : UdrContext)
    → init_udr_context start cfg c ≡ some d
    → util_init_udr_context start cfg c ≡ some e
    → d ≡ record e { nrf_cert_pem = d.nrf_cert_pem }
unfolding init_udr_context util_init_udr_context
util_init_udr_context-init_udr_context start cfg c d e started set = ground (arith, started, set)
