-- ===== src/Outputs/Format.antt =====
-- src/outputs/format.rs: the wire formats, over characters.
pub mod Pri
pub mod Syslog
pub mod RoundTrip
pub mod Brackets
use softnix_log_agent.Prelude.{
  ℕ, zero, suc, ◌+◌, ◌*◌, ◌-◌, ◌/◌, ◌%◌, min, Bool, true, false, ◌||◌, Option, none, some, List, [],
  ◌∷◌, ◌++◌, ltb, ◌==◌, if◌then◌else◌, chars, is_char,
}
use Prim.Native.Char.{Char, code}
use Prim.Native.String.{String}
use text.Mathlib.Text.{◌==◌ as str_eq}
use softnix_log_agent.Event.{Json, Value, Event, value_to_string}

pub data OutputFormat : Type 0 where
  json_lines rfc5424 rfc3164 raw : OutputFormat

-- What the formats call of chrono and serde_json: the time with milliseconds, the one in the old
-- syslog form, and the event as JSON, `none` if that fails.
pub record Stamps (Time Num Tree : Type 0) : Type 0 where
  pub to_rfc3339_millis : Time → String
  pub to_bsd : Time → String
  pub event_to_json : Event Time Num Tree → Option String

-- `unwrap_or`
abbrev pub unwrap_or : {A : Type 0} → A → Option A → A
unwrap_or d none = d
unwrap_or d (some a) = a

unfoldable pub digit : ℕ → Char
digit zero = "0"
digit (suc zero) = "1"
digit (suc (suc zero)) = "2"
digit (suc (suc (suc zero))) = "3"
digit (suc (suc (suc (suc zero)))) = "4"
digit (suc (suc (suc (suc (suc zero))))) = "5"
digit (suc (suc (suc (suc (suc (suc zero)))))) = "6"
digit (suc (suc (suc (suc (suc (suc (suc zero))))))) = "7"
digit (suc (suc (suc (suc (suc (suc (suc (suc zero)))))))) = "8"
digit _ = "9"

-- A `u8` in decimal.
unfoldable pub show_u8 : ℕ → List Char
unfolding digit
show_u8 n =
    if ltb n 10
    then digit n ∷ []
    else if ltb n 100
    then digit (n / 10) ∷ digit (n % 10) ∷ []
    else digit (n / 100) ∷ digit (n / 10 % 10) ∷ digit (n % 10) ∷ []

-- 34 is the code of the double quote.
unfoldable pub sd_escape : List Char → List Char
sd_escape [] = []
sd_escape (c ∷ cs) =
    let rest = sd_escape cs in
    if is_char 34 c || is_char b'\\' c || is_char b']' c then "\\" ∷ c ∷ rest else c ∷ rest

-- A character that a PARAM-NAME must not have.
abbrev pub bad_name_char : Char → Bool
bad_name_char c =
    is_char b' ' c || is_char b'=' c || is_char b']' c || is_char 34 c || ltb (code c) 33

unfoldable pub bad_name : List Char → Bool
bad_name [] = false
bad_name (c ∷ cs) = bad_name_char c || bad_name cs

abbrev pub is_empty_name : List Char → Bool
is_empty_name [] = true
is_empty_name (c ∷ cs) = false

module _ {Time Num Tree : Type 0} (json : Json Time Num Tree) where
  unfoldable pub value_to_param : Value Num Tree → Option String
  unfolding value_to_string
  value_to_param v = value_to_string json v

  -- The parameter of one field; nothing, where the field is passed over.
  unfoldable pub sd_param : String → Value Num Tree → List Char
  unfolding value_to_param bad_name sd_escape
  sd_param key val = if str_eq key "structured_data" then [] else elim (value_to_param val) [
    | none ↦ []
    | some value ↦
        if is_empty_name (chars key) || bad_name (chars key)
        then []
        else " " ∷ (chars key ++ "=" ∷ "\"" ∷ (sd_escape (chars value) ++ "\"" ∷ []))
  ]

  unfoldable pub sd_params : List (String × Value Num Tree) → List Char
  unfolding sd_param
  sd_params [] = []
  sd_params ((k, v) ∷ m) = sd_param k v ++ sd_params m

  unfoldable pub rfc5424_structured_data : Event Time Num Tree → List Char
  unfolding sd_params
  rfc5424_structured_data ev = elim (sd_params ev.fields) [
    | [] ↦ "-" ∷ []
    | c ∷ cs ↦ "[" ∷ (chars "softnix@32473" ++ ((c ∷ cs) ++ "]" ∷ []))
  ]

  unfoldable pub pri_of : Event Time Num Tree → ℕ
  pri_of ev = min (unwrap_or 1 ev.facility) 31 * 8 + min (unwrap_or 6 ev.severity) 7

  module _ (stamps : Stamps Time Num Tree) where
    unfoldable pub format_rfc5424 : Event Time Num Tree → List Char
    unfolding pri_of show_u8 rfc5424_structured_data
    format_rfc5424 ev =
        "<"
        ∷ (show_u8 (pri_of ev)
            ++ ">"
              ∷ "1"
              ∷ " "
              ∷ (chars (stamps.to_rfc3339_millis ev.timestamp)
                  ++ " "
                    ∷ (chars (unwrap_or "-" ev.hostname)
                        ++ " "
                          ∷ (chars (unwrap_or "softnix-log-agent" ev.application)
                              ++ " "
                                ∷ (chars (unwrap_or "-" ev.process_id)
                                    ++ " "
                                      ∷ "-"
                                      ∷ " "
                                      ∷ (rfc5424_structured_data ev ++ " " ∷ chars ev.message))))))

    unfoldable pub format_rfc3164 : Event Time Num Tree → List Char
    unfolding pri_of show_u8
    format_rfc3164 ev =
        "<"
        ∷ (show_u8 (pri_of ev)
            ++ ">"
              ∷ (chars (stamps.to_bsd ev.timestamp)
                  ++ " "
                    ∷ (chars (unwrap_or "-" ev.hostname)
                        ++ " "
                          ∷ (chars (unwrap_or "softnix" ev.application)
                              ++ (elim ev.process_id [
                                | none ↦ []
                                | some pid ↦ "[" ∷ (chars pid ++ "]" ∷ [])
                              ]
                                  ++ ":" ∷ " " ∷ chars ev.message)))))

    unfoldable pub format_event : OutputFormat → Event Time Num Tree → List Char
    unfolding format_rfc5424 format_rfc3164
    format_event json_lines ev = chars (unwrap_or ev.message (stamps.event_to_json ev))
    format_event raw ev = chars ev.message
    format_event rfc5424 ev = format_rfc5424 ev
    format_event rfc3164 ev = format_rfc3164 ev
