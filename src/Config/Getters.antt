-- ===== src/Config/Getters.antt =====
-- pkg/factory/config.go: what is read from a configuration, and the settings of its log. `none` as the
-- result of a function that reads is a panic, of a nil pointer.
use Prim.Native.String.{String, ◌++◌}
use free5gc_udr.Base.{Bool, false, ◌==◌, if◌then◌else◌, Option, none, some}
use free5gc_udr.Base.Int.{ℤ, pos, ℤ_eq, itoa}
use free5gc_udr.Config.{Tls, Metrics, Config}

unfoldable pub get_version : Config → Option String
get_version cfg = elim cfg.info [ none ↦ none | some i ↦ some i.version ]

unfoldable pub set_log_enable : Bool → Config → Config
set_log_enable enable cfg = elim cfg.logger [
  | none ↦ record cfg {
    logger = some (record { enable = enable; level = "info"; report_caller = false });
  }
  | some l ↦ record cfg { logger = some (record l { enable = enable }) }
]

unfoldable pub set_log_level : String → Config → Config
set_log_level level cfg = elim cfg.logger [
  | none ↦ record cfg {
    logger = some (record { enable = false; level = level; report_caller = false });
  }
  | some l ↦ record cfg { logger = some (record l { level = level }) }
]

unfoldable pub set_log_report_caller : Bool → Config → Config
set_log_report_caller report_caller cfg = elim cfg.logger [
  | none ↦ record cfg {
    logger = some (record { enable = false; level = "info"; report_caller = report_caller });
  }
  | some l ↦ record cfg { logger = some (record l { report_caller = report_caller }) }
]

unfoldable pub get_log_enable : Config → Bool
get_log_enable cfg = elim cfg.logger [ none ↦ false | some l ↦ l.enable ]

unfoldable pub get_log_level : Config → String
get_log_level cfg = elim cfg.logger [ none ↦ "info" | some l ↦ l.level ]

unfoldable pub get_log_report_caller : Config → Bool
get_log_report_caller cfg = elim cfg.logger [ none ↦ false | some l ↦ l.report_caller ]

-- `c.Configuration.Sbi.Tls`
sbi_tls : Config → Option Tls
sbi_tls cfg = elim cfg.configuration [
  | none ↦ none
  | some c ↦ elim c.sbi [ none ↦ none | some s ↦ s.tls ]
]

unfoldable pub get_cert_pem_path : Config → Option String
unfolding sbi_tls
get_cert_pem_path cfg = elim (sbi_tls cfg) [ none ↦ none | some t ↦ some t.pem ]

unfoldable pub get_cert_key_path : Config → Option String
unfolding sbi_tls
get_cert_key_path cfg = elim (sbi_tls cfg) [ none ↦ none | some t ↦ some t.key ]

-- `c.Configuration != nil && c.Configuration.Metrics != nil`
metrics_of : Config → Option Metrics
metrics_of cfg = elim cfg.configuration [ none ↦ none | some c ↦ c.metrics ]

unfoldable pub are_metrics_enabled : Config → Bool
unfolding metrics_of
are_metrics_enabled cfg = elim (metrics_of cfg) [ none ↦ false | some m ↦ m.enable ]

-- A text that is given, or the default.
or_default : String → String → String
or_default given default = if given == "" then default else given

unfoldable pub get_metrics_scheme : Config → String
unfolding metrics_of or_default
get_metrics_scheme cfg = elim (metrics_of cfg) [
  | none ↦ "https"
  | some m ↦ or_default m.scheme "https"
]

unfoldable pub get_metrics_port : Config → ℤ
unfolding metrics_of
get_metrics_port cfg = elim (metrics_of cfg) [
  | none ↦ pos 9091
  | some m ↦ if ℤ_eq m.port (pos 0) then pos 9091 else m.port
]

-- `getenv` is os.Getenv.
unfoldable pub get_metrics_binding_ip : (String → String) → Config → String
unfolding metrics_of or_default
get_metrics_binding_ip getenv cfg = elim (metrics_of cfg) [
  | none ↦ "0.0.0.0"
  | some m ↦
      if m.binding_ipv4 == "" then "0.0.0.0" else or_default (getenv m.binding_ipv4) m.binding_ipv4
]

unfoldable pub get_metrics_binding_addr : (String → String) → Config → String
unfolding get_metrics_binding_ip get_metrics_port
get_metrics_binding_addr getenv cfg =
    get_metrics_binding_ip getenv cfg ++ ":" ++ itoa (get_metrics_port cfg)

-- The paths and the namespace of the metrics: a configuration that is nil is a panic.
unfoldable pub get_metrics_cert_pem_path : Config → Option String
get_metrics_cert_pem_path cfg = elim cfg.configuration [
  | none ↦ none
  | some c ↦ elim c.metrics [
    | none ↦ some ""
    | some m ↦ elim m.tls [ none ↦ some "" | some t ↦ some t.pem ]
  ]
]

unfoldable pub get_metrics_cert_key_path : Config → Option String
get_metrics_cert_key_path cfg = elim cfg.configuration [
  | none ↦ none
  | some c ↦ elim c.metrics [
    | none ↦ some ""
    | some m ↦ elim m.tls [ none ↦ some "" | some t ↦ some t.key ]
  ]
]

unfoldable pub get_metrics_namespace : Config → Option String
unfolding or_default
get_metrics_namespace cfg = elim cfg.configuration [
  | none ↦ none
  | some c ↦ elim c.metrics [
    | none ↦ some "free5gc"
    | some m ↦ some (or_default m.namespace "free5gc")
  ]
]
