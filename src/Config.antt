-- ===== src/Config.antt =====
-- src/config/schema.rs and src/config/validate.rs: the configuration, as serde leaves it, and its
-- validation. Which of several errors is reported is not modelled.
pub mod Entries
pub mod Validate
pub mod Sound
mod Tests
use softnix_log_agent.Prelude.{ℕ, Bool, Option, List}
use Prim.Native.String.{String}
use softnix_log_agent.Event.{Value}
use softnix_log_agent.Buffer.Queue.{FullPolicy}
use softnix_log_agent.Buffer.Open.{BufferConfig}
use softnix_log_agent.Outputs.Worker.{RetryConfig}
use softnix_log_agent.Outputs.Format.{OutputFormat}
use softnix_log_agent.Pipeline.Condition.{Condition}
use softnix_log_agent.Pipeline.Transform.{TransformStep}
use softnix_log_agent.Pipeline.Enrich.{EnrichConfig}
use softnix_log_agent.Pipeline.Syslog.{SyslogFormat}

pub record AgentConfig : Type 0 where
  pub data_dir : String
  pub log_level : String
  pub state_retention_hours : ℕ

pub data ParserMode : Type 0 where
  raw json kv regex syslog : ParserMode

pub record ParserConfig : Type 0 where
  pub mode : ParserMode
  pub pattern : Option String
  pub pair_separator : String
  pub kv_separator : String
  pub timestamp_format : Option String
  pub keep_raw_message : Bool

pub record FileInputConfig : Type 0 where
  pub id : String
  pub paths : List String
  pub exclude : List String
  pub poll_interval_ms : ℕ
  pub discovery_interval_ms : ℕ
  pub read_from_start : Bool
  pub parser : ParserConfig
  pub source_type : Option String

pub data SyslogProtocol : Type 0 where
  udp tcp tls_stream : SyslogProtocol

pub record TlsServerOptions : Type 0 where
  pub cert : String
  pub key : String
  pub client_ca : Option String

pub record TlsClientOptions : Type 0 where
  pub ca : Option String
  pub cert : Option String
  pub key : Option String
  pub verify : Bool
  pub server_name : Option String

pub record SyslogInputConfig : Type 0 where
  pub id : String
  pub protocol : SyslogProtocol
  pub bind : String
  pub port : ℕ
  pub format : SyslogFormat
  pub tls : Option TlsServerOptions
  pub source_type : Option String
  pub keep_raw_message : Bool
  pub max_connections : ℕ
  pub idle_timeout_secs : ℕ
  pub handshake_timeout_secs : ℕ
  pub allowed_senders : List String

pub record EventLogInputConfig : Type 0 where
  pub id : String
  pub channels : List String
  pub query : String
  pub read_existing : Bool
  pub source_type : Option String
  pub keep_raw_message : Bool

pub record InputsConfig : Type 0 where
  pub files : List FileInputConfig
  pub syslog : List SyslogInputConfig
  pub eventlog : List EventLogInputConfig

pub record PipelineConfig (Num Tree : Type 0) : Type 0 where
  pub transforms : List (TransformStep Num Tree)
  pub enrich : EnrichConfig Num Tree

pub data OutputKind : Type 0 where
  syslog stdout : OutputKind

pub data Framing : Type 0 where
  newline octet_counting : Framing

pub record OutputConfig (Num Tree : Type 0) : Type 0 where
  pub id : String
  pub kind : OutputKind
  pub address : Option String
  pub protocol : SyslogProtocol
  pub format : OutputFormat
  pub framing : Framing
  pub tls : Option TlsClientOptions
  pub when : Option (Condition Num Tree)
  pub failover_for : Option String
  pub retry : RetryConfig
  pub full_policy : Option FullPolicy

pub record WebConfig : Type 0 where
  pub enabled : Bool
  pub bind : String
  pub port : ℕ
  pub auth_token : Option String

pub record UpdateConfig : Type 0 where
  pub check_url : Option String

pub record Config (Num Tree : Type 0) : Type 0 where
  pub agent : AgentConfig
  pub inputs : InputsConfig
  pub pipeline : PipelineConfig Num Tree
  pub buffer : BufferConfig
  pub outputs : List (OutputConfig Num Tree)
  pub web : WebConfig
  pub update : UpdateConfig
