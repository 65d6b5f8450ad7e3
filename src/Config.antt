-- ===== src/Config.antt =====
-- pkg/factory/config.go: the configuration, its validation, and what is read from it. A pointer is an
-- option.
pub mod Getters
pub mod Setup
pub mod Laws
use Prim.Native.String.{String, ◌++◌}
use free5gc_udr.Base.{
  Bool, true, false, ◌&&◌, ◌==◌, if◌then◌else◌, List, [], ◌∷◌, map, Option, none, some,
}
use free5gc_udr.Base.Int.{ℤ, pos, ℤ_eq, itoa}

pub record Info : Type 0 where
  pub version : String
  pub description : String

pub record Tls : Type 0 where
  pub pem : String
  pub key : String

pub record Sbi : Type 0 where
  pub scheme : String
  pub register_ipv4 : String
  pub binding_ipv4 : String
  pub port : ℤ
  pub tls : Option Tls

pub record Metrics : Type 0 where
  pub enable : Bool
  pub scheme : String
  pub binding_ipv4 : String
  pub port : ℤ
  pub tls : Option Tls
  pub namespace : String

pub record Mongodb : Type 0 where
  pub name : String
  pub url : String

pub record Configuration : Type 0 where
  pub sbi : Option Sbi
  pub metrics : Option Metrics
  pub db_connector_type : String
  pub mongodb : Option Mongodb
  pub nrf_uri : String
  pub nrf_cert_pem : String

pub record Logger : Type 0 where
  pub enable : Bool
  pub level : String
  pub report_caller : Bool

pub record Config : Type 0 where
  pub info : Option Info
  pub configuration : Option Configuration
  pub logger : Option Logger

-- A result and an error, which is the texts of a govalidator.Errors, or nil.
abbrev pub Validated : Type 0
Validated = Bool × Option (List String)

-- govalidator.ValidateStruct for each type, which is not part of the repository, with the text of a
-- list of errors.
pub record Govalidator : Type 0 where
  pub config : Config → Validated
  pub configuration : Configuration → Validated
  pub metrics : Metrics → Validated
  pub tls : Tls → Validated
  pub error_text : List String → String

unfoldable pub append_invalid : Option (List String) → Option (List String)
append_invalid none = none
append_invalid (some es) = some (map (λ e. "invalid " ++ e) es)

-- `append(errs, err)` for an error that may be nil.
abbrev pub append_error : (List String → String) → Option (List String) → List String → List String
append_error error_text none errs = errs
append_error error_text (some es) errs = error_text es ∷ errs

abbrev pub nil_if_none : List String → Option (List String)
nil_if_none [] = none
nil_if_none (e ∷ es) = some (e ∷ es)

abbrev pub has_none : Option (List String) → Bool
has_none none = true
has_none (some es) = false

module _ (v : Govalidator) where
  unfoldable pub tls_validate : Tls → Validated
  unfolding append_invalid
  tls_validate t = ((v.tls t).0, append_invalid (v.tls t).1)

  tls_error : Option Tls → Option (List String)
  tls_error none = none
  tls_error (some t) = (tls_validate t).1

  unfoldable pub metrics_validate : Metrics → Validated
  unfolding tls_validate tls_error
  metrics_validate m =
      let errs =
        append_error v.error_text (tls_error m.tls)
          (append_error v.error_text (v.metrics m).1 []) in
      (has_none (nil_if_none errs), nil_if_none errs)

  -- The bindings are the same.
  unfoldable pub same_binding : Option Sbi → Metrics → Bool
  same_binding none m = false
  same_binding (some s) m = ℤ_eq m.port s.port && s.binding_ipv4 == m.binding_ipv4

  binding_error : Sbi → String
  binding_error s =
      "sbi and metrics bindings IPv4: "
      ++ s.binding_ipv4
      ++ " and port: "
      ++ itoa s.port
      ++ " cannot be the same, please provide at least another port for the metrics"

  binding_errors : Option Sbi → List String
  binding_errors none = []
  binding_errors (some s) = binding_error s ∷ []

  unfoldable pub validate_struct : Configuration → Validated
  unfolding append_invalid
  validate_struct c = ((v.configuration c).0, append_invalid (v.configuration c).1)

  unfoldable pub configuration_validate : Configuration → Validated
  unfolding metrics_validate same_binding binding_errors binding_error validate_struct
  configuration_validate c = elim c.metrics [
    | none ↦ validate_struct c
    | some m ↦ elim ((metrics_validate m).1) [
      | some es ↦ (false, some es)
      | none ↦
          if same_binding c.sbi m then (false, some (binding_errors c.sbi)) else validate_struct c
    ]
  ]

  unfoldable pub validate : Config → Validated
  unfolding configuration_validate append_invalid
  validate cfg = elim cfg.configuration [
    | none ↦ ((v.config cfg).0, append_invalid (v.config cfg).1)
    | some c ↦ elim ((configuration_validate c).1) [
      | some es ↦ ((configuration_validate c).0, some es)
      | none ↦ ((v.config cfg).0, append_invalid (v.config cfg).1)
    ]
  ]
