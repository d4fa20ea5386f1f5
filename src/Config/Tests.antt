-- ===== src/Config/Tests.antt =====
-- src/config/validate.rs: the validation of a small configuration.
use softnix_log_agent.Prelude.{ℕ, ◌≡◌, refl, true, false, none, some, [], ◌∷◌}
use Prim.Native.String.{String}
use softnix_log_agent.Buffer.Queue.{drop_oldest}
use softnix_log_agent.Outputs.Format.{OutputFormat}
use softnix_log_agent.Config.{OutputConfig, OutputKind, Framing, udp, ParserMode, Config}
use softnix_log_agent.Config.Entries.{Checks}
use softnix_log_agent.Config.Validate.{validate}
use softnix_log_agent.Config.Sound.{Sound, validate-Sound}

abbrev checks : Checks
checks = record {
  glob = λ p. true;
  exclude = λ p. true;
  regex = λ p. true;
  parse_ip = λ a. some true;
  net = λ n. true;
  is_file = λ p. true;
  windows = false;
}

abbrev output : String → OutputConfig ℕ ℕ
output id = record {
  id = id;
  kind = OutputKind.stdout;
  address = none;
  protocol = udp;
  format = OutputFormat.raw;
  framing = Framing.newline;
  tls = none;
  when = none;
  failover_for = none;
  retry = record { initial_backoff_ms = 500; max_backoff_ms = 30000; batch_size = 200 };
  full_policy = none;
}

abbrev config : Config ℕ ℕ
config = record {
  agent = record { data_dir = "data"; log_level = "info"; state_retention_hours = 24 };
  inputs = record {
    files =
        record {
          id = "app";
          paths = "/var/log/app.log" ∷ [];
          exclude = [];
          poll_interval_ms = 500;
          discovery_interval_ms = 30000;
          read_from_start = false;
          parser = record {
            mode = ParserMode.raw;
            pattern = none;
            pair_separator = " ";
            kv_separator = "=";
            timestamp_format = none;
            keep_raw_message = false;
          };
          source_type = none;
        }
        ∷ [];
    syslog = [];
    eventlog = [];
  };
  pipeline = record {
    transforms = [];
    enrich = record {
      hostname = true;
      os_info = true;
      agent_version = true;
      local_ip = false;
      environment = none;
      site = none;
      tenant = none;
      customer = none;
      tags = [];
      fields = [];
    };
  };
  buffer = record { max_size_mb = 1024; segment_size_mb = 16; full_policy = drop_oldest };
  outputs = output "main" ∷ record (output "standby") { failover_for = some "main" } ∷ [];
  web = record { enabled = true; bind = "127.0.0.1"; port = 8080; auth_token = none };
  update = record { check_url = none };
}

passes : validate checks config ≡ some []
unfolding validate
passes = refl

validate-Sound_example : Sound checks config
validate-Sound_example = validate-Sound checks config [] passes
