-- ===== src/Pipeline/Parser.antt =====
-- src/pipeline/parser.rs: the keys that a parser knows, and the parser of JSON lines.
use softnix_log_agent.Prelude.{
  ℕ, min, Bool, true, false, ◌||◌, Option, none, some, List, [], ◌∷◌, if◌then◌else◌,
}
use Prim.Native.String.{String}
use text.Mathlib.Text.{◌==◌ as str_eq}
use softnix_log_agent.Event.{
  Json, Value, number, string, Event, and_then, value_to_string, severity_from_name, try_u8,
  parse_u8, codes, insert,
}

-- What the parsers call of chrono and serde_json: `parse_from_str` of a time and of one without a
-- zone, each with its format, and `from_str` of a line, `none` if it is no object.
pub record Formats (Time Num Tree : Type 0) : Type 0 where
  pub parse_from_str : String → String → Option Time
  pub parse_naive : String → String → Option Time
  pub object_from_str : String → Option (List (String × Value Num Tree))

abbrev pub or_else : {A : Type 0} → Option A → Option A → Option A
or_else none o = o
or_else (some a) o = some a

module _ {Time Num Tree : Type 0} (json : Json Time Num Tree)
    (formats : Formats Time Num Tree) where
  unfoldable pub try_format : String → String → Option Time
  try_format fmt s = or_else (formats.parse_from_str s fmt) (formats.parse_naive s fmt)

  unfoldable pub parse_timestamp : String → Option String → Option Time
  unfolding try_format
  parse_timestamp s format =
      or_else (elim format [ none ↦ none | some fmt ↦ try_format fmt s ])
        (or_else (json.parse_from_rfc3339 s) (
          or_else (try_format "%Y-%m-%d %H:%M:%S%.f" s)
            (or_else (try_format "%Y-%m-%dT%H:%M:%S%.f" s) (try_format "%d/%b/%Y:%H:%M:%S %z" s))))

  -- `val.as_str()`
  abbrev pub as_str : Value Num Tree → Option String
  as_str (string s) = some s
  as_str _ = none

  unfoldable pub severity_of : Value Num Tree → Option ℕ
  unfolding severity_from_name parse_u8
  severity_of (number n) = and_then (json.as_u64 n) (try_u8 json)
  severity_of (string s) = or_else (severity_from_name s) (parse_u8 (codes s))
  severity_of _ = none

  unfoldable pub apply_known_key :
      String → Value Num Tree → Event Time Num Tree → Bool × Event Time Num Tree
  unfolding parse_timestamp severity_of value_to_string
  apply_known_key key val ev =
      if str_eq key "timestamp" || str_eq key "time" || str_eq key "@timestamp" || str_eq key "ts"
      then elim (and_then (as_str val) (λ s. parse_timestamp s none)) [
        | none ↦ (false, ev)
        | some ts ↦ (true, record ev { timestamp = ts })
      ]
      else if str_eq key "host" || str_eq key "hostname"
      then (true, record ev { hostname = value_to_string json val })
      else if str_eq key "severity" || str_eq key "level" || str_eq key "loglevel"
      then elim (severity_of val) [
        | none ↦ (false, ev)
        | some s ↦ (true, record ev { severity = some (min s 7) })
      ]
      else if str_eq key "message" || str_eq key "msg"
      then elim (as_str val) [ none ↦ (false, ev) | some s ↦ (true, record ev { message = s }) ]
      else if str_eq key "application"
          || str_eq key "app"
          || str_eq key "appname"
          || str_eq key "program"
      then (true, record ev { application = value_to_string json val })
      else if str_eq key "pid" || str_eq key "process_id" || str_eq key "procid"
      then (true, record ev { process_id = value_to_string json val })
      else (false, ev)

  unfoldable pub put_entry : String → Value Num Tree → Event Time Num Tree → Event Time Num Tree
  unfolding apply_known_key insert
  put_entry k v ev =
      let (known, next) = apply_known_key k v ev in
      if known then next else record next { fields = insert k v next.fields }

  unfoldable pub put_entries :
      List (String × Value Num Tree) → Event Time Num Tree → Event Time Num Tree
  put_entries [] ev = ev
  put_entries ((k, v) ∷ m) ev = put_entries m (put_entry k v ev)

  -- A line that is no JSON object leaves the event as it is.
  unfoldable pub parse_json_into : String → Event Time Num Tree → Event Time Num Tree
  unfolding put_entries
  parse_json_into line ev = elim (formats.object_from_str line) [
    | none ↦ ev
    | some m ↦ put_entries m ev
  ]
