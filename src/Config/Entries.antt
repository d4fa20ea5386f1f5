-- ===== src/Config/Entries.antt =====
-- src/config/validate.rs: the tests of each entry, `true` where the source goes on.
use softnix_log_agent.Prelude.{
  ℕ, Bool, true, false, not, ◌&&◌, ◌||◌, Option, none, some, List, [], ◌∷◌, ltb, ◌==◌,
  if◌then◌else◌,
}
use Prim.Native.String.{String}
use text.Mathlib.Text.{◌==◌ as str_eq}
use softnix_log_agent.Event.{Value, string, codes}
use softnix_log_agent.State.{contains}
use softnix_log_agent.Update.{trim_start}
use softnix_log_agent.Pipeline.Condition.{Condition}
use softnix_log_agent.Pipeline.Transform.{
  TransformStep, add_field, remove_field_step, rename_field, convert, mask, drop, keep,
}
use softnix_log_agent.Pipeline.Syslog.{opt_then}
use softnix_log_agent.Config.{
  ParserConfig, ParserMode, FileInputConfig, SyslogInputConfig, udp, tcp, tls_stream,
  TlsClientOptions, EventLogInputConfig, OutputConfig, OutputKind,
}

-- The crates and the system that are asked: whether a glob, an exclude pattern and a regular
-- expression compile, whether an address reads and is a loopback address, whether a network reads,
-- whether a path is a file; and whether the system is Windows.
pub record Checks : Type 0 where
  pub glob : String → Bool
  pub exclude : String → Bool
  pub regex : String → Bool
  pub parse_ip : String → Option Bool
  pub net : String → Bool
  pub is_file : String → Bool
  pub windows : Bool

abbrev pub is_some : {A : Type 0} → Option A → Bool
is_some none = false
is_some (some a) = true

-- `trim().is_empty()`
unfoldable pub blank : String → Bool
unfolding trim_start
blank s = elim (trim_start (codes s)) [ [] ↦ true | c ∷ cs ↦ false ]

abbrev pub empty {ℓ} : {A : Type ℓ} → List A → Bool
empty [] = true
empty (x ∷ xs) = false

abbrev pub all : {A : Type 0} → (A → Bool) → List A → Bool
all f [] = true
all f (x ∷ xs) = f x && all f xs

-- `&str`: `contains(':')`
unfoldable pub has_colon : List ℕ → Bool
has_colon [] = false
has_colon (c ∷ cs) = c == b':' || has_colon cs

-- The tests that begin each entry: an id, and none that was there before.
unfoldable pub take_id : String → List String → Option (List String)
unfolding blank contains
take_id id ids = if blank id || contains id ids then none else some (id ∷ ids)

-- A loop over the entries of a section.
unfoldable pub validate_each :
    {A : Type 0} → (A → String) → (A → Bool) → List String → List A → Option (List String)
unfolding take_id
validate_each id_of test ids [] = some ids
validate_each id_of test ids (a ∷ rest) =
    opt_then (take_id (id_of a) ids)
      (λ more. elim (test a) [ true ↦ validate_each id_of test more rest | false ↦ none ])

abbrev pub blank_token : Option String → Bool
blank_token none = true
blank_token (some t) = blank t

module _ (checks : Checks) where
  -- `parse_ip_net`
  unfoldable pub parse_ip_net : String → Bool
  parse_ip_net s = checks.net s || is_some (checks.parse_ip s)

  unfoldable pub validate_parser : ParserConfig → Bool
  validate_parser p = elim p.mode [
    | ParserMode.regex ↦ elim p.pattern [ none ↦ false | some pat ↦ checks.regex pat ]
    | ParserMode.kv ↦ not (str_eq p.pair_separator "" || str_eq p.kv_separator "")
    | ParserMode.raw ↦ true
    | ParserMode.json ↦ true
    | ParserMode.syslog ↦ true
  ]

  unfoldable pub file_tests : FileInputConfig → Bool
  unfolding validate_parser
  file_tests f =
      not (empty f.paths)
      && all checks.glob f.paths
      && all checks.exclude f.exclude
      && not (ltb f.poll_interval_ms 50)
      && not (ltb f.discovery_interval_ms 50)
      && validate_parser f.parser

  abbrev pub opt_file : Option String → Bool
  opt_file none = true
  opt_file (some p) = checks.is_file p

  unfoldable pub syslog_tests : SyslogInputConfig → Bool
  unfolding parse_ip_net
  syslog_tests s =
      is_some (checks.parse_ip s.bind)
      && not (s.port == 0)
      && not (s.max_connections == 0)
      && not (s.idle_timeout_secs == 0)
      && not (s.handshake_timeout_secs == 0)
      && elim s.protocol [
        | tls_stream ↦ elim s.tls [
          | none ↦ false
          | some t ↦ checks.is_file t.cert && checks.is_file t.key && opt_file t.client_ca
        ]
        | udp ↦ true
        | tcp ↦ true
      ]
      && all parse_ip_net s.allowed_senders

  unfoldable pub eventlog_tests : EventLogInputConfig → Bool
  unfolding blank
  eventlog_tests e = not (empty e.channels) && not (blank e.query)

  unfoldable pub tls_tests : Option TlsClientOptions → Bool
  tls_tests none = true
  tls_tests (some t) = opt_file t.ca && elim t.cert [
    | none ↦ not (is_some t.key)
    | some c ↦ elim t.key [ none ↦ false | some k ↦ checks.is_file c && checks.is_file k ]
  ]

  module _ {Num Tree : Type 0} where
    -- `v.as_str()`
    abbrev pub text_of : Option (Value Num Tree) → Option String
    text_of (some (string s)) = some s
    text_of _ = none

    unfoldable pub validate_condition : Condition Num Tree → Bool
    validate_condition c =
        if str_eq c.op "eq"
          || str_eq c.op "ne"
          || str_eq c.op "contains"
          || str_eq c.op "gt"
          || str_eq c.op "lt"
        then is_some c.value
        else if str_eq c.op "matches"
        then elim (text_of c.value) [ none ↦ false | some v ↦ checks.regex v ]
        else str_eq c.op "exists" || str_eq c.op "not_exists"

    abbrev pub opt_condition : Option (Condition Num Tree) → Bool
    opt_condition none = true
    opt_condition (some c) = validate_condition c

    unfoldable pub validate_transform : TransformStep Num Tree → Bool
    unfolding validate_condition
    validate_transform (add_field f v w) = opt_condition w
    validate_transform (remove_field_step f w) = opt_condition w
    validate_transform (rename_field f t w) = opt_condition w
    validate_transform (convert f to w) =
        (str_eq to "int" || str_eq to "float" || str_eq to "string" || str_eq to "bool")
        && opt_condition w
    validate_transform (mask f pattern r w) = checks.regex pattern && opt_condition w
    validate_transform (drop w) = validate_condition w
    validate_transform (keep w) = validate_condition w

    -- The address of a syslog output, and its TLS options.
    unfoldable pub kind_tests : OutputConfig Num Tree → Bool
    unfolding has_colon tls_tests
    kind_tests o = elim o.kind [
      | OutputKind.stdout ↦ true
      | OutputKind.syslog ↦ elim o.address [
        | none ↦ false
        | some addr ↦
            has_colon (codes addr)
            && elim o.protocol [ tls_stream ↦ tls_tests o.tls | udp ↦ true | tcp ↦ true ]
      ]
    ]

    unfoldable pub failover_tests : List String → OutputConfig Num Tree → Bool
    unfolding contains
    failover_tests output_ids o = elim o.failover_for [
      | none ↦ true
      | some f ↦ contains f output_ids && not (str_eq f o.id)
    ]

    unfoldable pub output_tests : List String → OutputConfig Num Tree → Bool
    unfolding kind_tests failover_tests validate_condition
    output_tests output_ids o =
        kind_tests o
        && opt_condition o.when
        && failover_tests output_ids o
        && not (o.retry.batch_size == 0)
        && not (ltb 10000 o.retry.batch_size)
