-- ===== src/Pipeline/Sample.antt =====
-- src/pipeline: the third-party calls on small concrete data, and an event, for runs.
use softnix_log_agent.Prelude.{ℕ, none, some, [], ◌∷◌, ◌==◌, ltb, if◌then◌else◌}
use Prim.Native.String.{String}
use text.Mathlib.Text.{◌==◌ as str_eq}
use softnix_log_agent.Event.{Json, string, Event}
use softnix_log_agent.Pipeline.Condition.{Texts}
use softnix_log_agent.Pipeline.Transform.{Numbers}
use softnix_log_agent.Pipeline.Enrich.{Host}

-- Times, numbers and trees are numbers; a pattern is a text that stands for the whole line.
abbrev pub json : Json ℕ ℕ ℕ
json = record {
  to_rfc3339 = λ t. "2026-01-01T00:00:00Z";
  parse_from_rfc3339 = λ s. if str_eq s "2026-01-01T00:00:00Z" then some 0 else none;
  num_to_string = λ n. if n == 0 then "0" else "1";
  tree_to_string = λ n. "{}";
  num_eq = λ a b. a == b;
  tree_eq = λ a b. a == b;
  as_u64 = λ n. some n;
  num_of = λ n. n;
}

abbrev pub texts : Texts ℕ String ℕ
texts = record {
  compile_regex = λ s. some s;
  is_match = λ re s. str_eq re s;
  replace_all = λ re s by. if str_eq re s then by else s;
  contains = λ s t. str_eq s t;
  as_f64 = λ n. some n;
  parse_f64 = λ s. none;
  float_lt = ltb;
}

abbrev pub numbers : Numbers ℕ
numbers = record {
  int_of_num = λ n. some n;
  int_of_string = λ s. none;
  int_of_bool = λ b. if b then 1 else 0;
  float_of_num = λ n. some n;
  float_of_string = λ s. none;
  num_is_zero = λ n. n == 0;
}

abbrev pub event : Event ℕ ℕ ℕ
event = record {
  timestamp = 0;
  received_at = 0;
  hostname = none;
  source = "app";
  source_type = "file";
  severity = some 3;
  facility = none;
  application = none;
  process_id = none;
  message = "secret";
  raw_message = some "secret";
  collector_version = "1";
  fields = ("user", string "root") ∷ [];
}

abbrev pub host : Host ℕ
host = record {
  hostname = some "node";
  os = "linux";
  arch = "x86_64";
  local_ip = none;
  array_of = λ ts. 0;
}
