-- ===== src/Config/Validate.antt =====
-- src/config/validate.rs: validation. It gives the warnings, or nothing where the source fails.
use softnix_log_agent.Prelude.{
  Bool, true, false, not, ◌&&◌, ◌||◌, Option, none, some, List, [], ◌∷◌, ◌++◌, map, ltb,
  if◌then◌else◌,
}
use Prim.Native.String.{String}
use text.Mathlib.Text.{◌==◌ as str_eq}
use softnix_log_agent.Buffer.Open.{BufferConfig}
use softnix_log_agent.Pipeline.Syslog.{opt_then}
use softnix_log_agent.Config.{
  AgentConfig, FileInputConfig, SyslogInputConfig, udp, tcp, tls_stream, TlsClientOptions,
  EventLogInputConfig, OutputConfig, OutputKind, WebConfig, Config,
}
use softnix_log_agent.Config.Entries.{
  Checks, is_some, blank, empty, all, validate_each, blank_token, file_tests, syslog_tests,
  eventlog_tests, validate_transform, output_tests,
}

pub data Warning : Type 0 where
  tls_ignored : String → Warning
  not_on_this_platform : String → Warning
  no_outputs : Warning
  verification_disabled : String → Warning
  reachable : Warning

abbrev pub warn_if : Bool → Warning → List Warning
warn_if true w = w ∷ []
warn_if false w = []

abbrev pub unverified : Option TlsClientOptions → Bool
unverified none = false
unverified (some t) = not t.verify

unfoldable pub buffer_tests : BufferConfig → Bool
buffer_tests b =
    not (ltb b.max_size_mb 1)
    && not (ltb b.segment_size_mb 1 || ltb b.max_size_mb b.segment_size_mb)

unfoldable pub level_tests : AgentConfig → Bool
level_tests a =
    str_eq a.log_level "trace"
    || str_eq a.log_level "debug"
    || str_eq a.log_level "info"
    || str_eq a.log_level "warn"
    || str_eq a.log_level "error"

module _ (checks : Checks) where
  unfoldable pub web_tests : WebConfig → Bool
  unfolding blank
  web_tests w = not w.enabled || elim (checks.parse_ip w.bind) [
    | none ↦ false
    | some is_loopback ↦ is_loopback || not (blank_token w.auth_token)
  ]

  abbrev pub syslog_warnings : List SyslogInputConfig → List Warning
  syslog_warnings [] = []
  syslog_warnings (s ∷ ss) =
      elim s.protocol [
        | tls_stream ↦ []
        | udp ↦ warn_if (is_some s.tls) (tls_ignored s.id)
        | tcp ↦ warn_if (is_some s.tls) (tls_ignored s.id)
      ]
      ++ syslog_warnings ss

  abbrev pub eventlog_warnings : List EventLogInputConfig → List Warning
  eventlog_warnings [] = []
  eventlog_warnings (e ∷ es) =
      warn_if (not checks.windows) (not_on_this_platform e.id) ++ eventlog_warnings es

  abbrev pub web_warnings : WebConfig → List Warning
  web_warnings w = elim (checks.parse_ip w.bind) [
    | none ↦ []
    | some is_loopback ↦ warn_if (w.enabled && not is_loopback) reachable
  ]

  module _ {Num Tree : Type 0} where
    abbrev pub output_warnings : List (OutputConfig Num Tree) → List Warning
    output_warnings [] = []
    output_warnings (o ∷ os) =
        elim o.kind [
          | OutputKind.stdout ↦ []
          | OutputKind.syslog ↦ elim o.protocol [
            | tls_stream ↦ warn_if (unverified o.tls) (verification_disabled o.id)
            | udp ↦ []
            | tcp ↦ []
          ]
        ]
        ++ output_warnings os

    unfoldable pub warnings : Config Num Tree → List Warning
    warnings cfg =
        syslog_warnings cfg.inputs.syslog
        ++ (eventlog_warnings cfg.inputs.eventlog
            ++ (warn_if (empty cfg.outputs) no_outputs
                ++ (output_warnings cfg.outputs ++ web_warnings cfg.web)))

    -- The ids of all sections; the last that was read comes first.
    unfoldable pub validate_ids : Config Num Tree → Option (List String)
    unfolding validate_each file_tests syslog_tests eventlog_tests output_tests
    validate_ids cfg =
        opt_then
          (validate_each (λ (f : FileInputConfig). f.id) (file_tests checks) [] cfg.inputs.files)
          (λ a.
            opt_then
              (validate_each (λ (s : SyslogInputConfig). s.id) (syslog_tests checks) a
                cfg.inputs.syslog)
              (λ b.
                opt_then
                  (validate_each (λ (e : EventLogInputConfig). e.id) (eventlog_tests checks) b
                    cfg.inputs.eventlog)
                  (λ c.
                    validate_each (λ (o : OutputConfig Num Tree). o.id)
                      (output_tests checks (map (λ (o : OutputConfig Num Tree). o.id) cfg.outputs))
                      c cfg.outputs)))

    unfoldable pub validate : Config Num Tree → Option (List Warning)
    unfolding validate_ids validate_transform buffer_tests web_tests level_tests warnings
    validate cfg = elim (validate_ids cfg) [
      | none ↦ none
      | some ids ↦
          if all (validate_transform checks) cfg.pipeline.transforms
            && buffer_tests cfg.buffer
            && web_tests cfg.web
            && level_tests cfg.agent
          then some (warnings cfg)
          else none
    ]
