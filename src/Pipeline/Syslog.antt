-- ===== src/Pipeline/Syslog.antt =====
-- src/pipeline/syslog.rs: the parsers of syslog lines, over characters. The tests on bytes are for
-- ASCII characters, which no other byte of a text equals.
use softnix_log_agent.Prelude.{
  ℕ, ◌+◌, ◌-◌, ◌/◌, ◌%◌, Bool, true, false, not, ◌&&◌, ◌||◌, Option, none, some, List, [], ◌∷◌, map,
  length, leb, ltb, ◌==◌, if◌then◌else◌, of_chars, is_char, strip_char, split_once,
}
use Prim.Native.Char.{Char, code, len_utf8}
use Prim.Native.String.{String}
use softnix_log_agent.Event.{Json, string, Event, insert}
use softnix_log_agent.Update.{is_whitespace, parse_u64}
use softnix_log_agent.Pipeline.Parser.{Formats, parse_json_into}

pub data SyslogFormat : Type 0 where
  auto rfc3164 rfc5424 json_lines raw : SyslogFormat

-- What the RFC 3164 parser asks the clock and chrono: the year, "%Y %b %e %H:%M:%S" in a year, and
-- whether a time is more than a day ahead.
pub record Calendar (Time : Type 0) : Type 0 where
  pub year : ℕ
  pub parse_in_year : ℕ → String → Option Time
  pub ahead : Time → Bool

unfoldable pub trim_start_chars : List Char → List Char
unfolding is_whitespace
trim_start_chars [] = []
trim_start_chars (c ∷ cs) = elim (is_whitespace (code c)) [
  | true ↦ trim_start_chars cs
  | false ↦ c ∷ cs
]

-- Facility, severity and what follows. A `u16` reads at most three characters as a `u64` does.
unfoldable pub parse_pri : List Char → Option (ℕ × ℕ × List Char)
unfolding split_once parse_u64
parse_pri line = elim (strip_char b'<' line) [
  | none ↦ none
  | some rest ↦ elim (split_once b'>' rest) [
    | none ↦ none
    | some (digits, after) ↦
        if length digits == 0 || ltb 3 (length digits)
        then none
        else elim (parse_u64 (map code digits)) [
          | none ↦ none
          | some pri ↦ if ltb 191 pri then none else some (pri / 8, pri % 8, after)
        ]
  ]
]

-- `splitn(6, ' ')`, if it has six parts; the fifth is not used.
pub record Header : Type 0 where
  pub ts : List Char
  pub host : List Char
  pub app : List Char
  pub procid : List Char
  pub tail : List Char

abbrev pub opt_then : {A B : Type 0} → Option A → (A → Option B) → Option B
opt_then none f = none
opt_then (some a) f = f a

unfoldable pub split_header : List Char → Option Header
unfolding split_once
split_header rest = opt_then (split_once b' ' rest) (λ a. opt_then (split_once b' ' a.1) (λ b.
    opt_then (split_once b' ' b.1) (λ c. opt_then (split_once b' ' c.1) (λ d.
      opt_then (split_once b' ' d.1)
        (λ e. some (record { ts = a.0; host = b.0; app = c.0; procid = d.0; tail = e.1 }))))))

-- Whether the next character is an opening bracket.
abbrev pub opens : List Char → Bool
opens [] = false
opens (c ∷ cs) = is_char b'[' c

abbrev pub onto : Char → List Char × List Char → List Char × List Char
onto c (head, tail) = (c ∷ head, tail)

-- The loop over the structured data, at a depth; `escaped` behind a backslash. What it passes, and
-- the rest.
unfoldable pub split_sd : Bool → ℕ → List Char → List Char × List Char
split_sd escaped depth [] = ([], [])
split_sd true depth (c ∷ cs) = onto c (split_sd false depth cs)
split_sd false depth (c ∷ cs) = elim (is_char b'[' c) [
  | true ↦ onto c (split_sd false (depth + 1) cs)
  | false ↦ elim (is_char b']' c) [
    | true ↦ elim (depth - 1 == 0 && not (opens cs)) [
      | true ↦ (c ∷ [], cs)
      | false ↦ onto c (split_sd false (depth - 1) cs)
    ]
    | false ↦ elim (is_char b'\\' c) [
      | true ↦ onto c (split_sd true depth cs)
      | false ↦ onto c (split_sd false depth cs)
    ]
  ]
]

abbrev pub is_nil : List Char → Bool
is_nil (c ∷ []) = is_char b'-' c
is_nil _ = false

-- `ts != "-"` and so on: the value, or what the event has.
abbrev pub or_nil : List Char → Option String → Option String
or_nil part old = if is_nil part then old else some (of_chars part)

unfoldable pub strip_bom : List Char → List Char
strip_bom cs = elim (strip_char 65279 cs) [ none ↦ cs | some rest ↦ rest ]

-- Structured data, kept raw if there is any, and the message.
unfoldable pub split_tail : List Char → Option (List Char) × List Char
unfolding split_sd trim_start_chars
split_tail tail = elim (strip_char b'-' tail) [
  | some stripped ↦ (none, trim_start_chars stripped)
  | none ↦
      if opens tail
      then (let (sd, m) = split_sd false 0 tail in (some sd, trim_start_chars m))
      else (none, tail)
]

-- `get(..n)` with what follows: nothing, if byte `n` is inside a character or behind the end.
unfoldable pub split_bytes : ℕ → List Char → Option (List Char × List Char)
split_bytes n [] = if n == 0 then some ([], []) else none
split_bytes n (c ∷ cs) = elim (n == 0) [
  | true ↦ some ([], c ∷ cs)
  | false ↦ elim (leb (len_utf8 c) n) [
    | true ↦ elim (split_bytes (n - len_utf8 c) cs) [
      | none ↦ none
      | some (head, tail) ↦ some (c ∷ head, tail)
    ]
    | false ↦ none
  ]
]

abbrev pub bytes_of : List Char → ℕ
bytes_of [] = 0
bytes_of (c ∷ cs) = len_utf8 c + bytes_of cs

unfoldable pub has_char : ℕ → List Char → Bool
has_char n [] = false
has_char n (c ∷ cs) = is_char n c || has_char n cs

abbrev pub empty_chars : List Char → Bool
empty_chars [] = true
empty_chars (c ∷ cs) = false

-- `trim_end_matches(']')`
unfoldable pub trim_brackets : List Char → List Char
trim_brackets [] = []
trim_brackets (c ∷ cs) = elim (trim_brackets cs) [
  | [] ↦ if is_char b']' c then [] else c ∷ []
  | d ∷ ds ↦ c ∷ d ∷ ds
]

-- The host of an RFC 3164 line, and what follows.
unfoldable pub take_host : List Char → Option String × List Char
unfolding split_once has_char
take_host line = elim (split_once b' ' line) [
  | none ↦ (none, line)
  | some (host, after) ↦
      if not (empty_chars host) && not (has_char b':' host)
      then (some (of_chars host), after)
      else (none, line)
]

-- `TAG[pid]: message`: application, process and message.
unfoldable pub take_tag : List Char → Option String × Option String × List Char
unfolding split_once has_char trim_brackets trim_start_chars
take_tag line = elim (split_once b':' line) [
  | none ↦ (none, none, line)
  | some (tag, msg) ↦
      if not (has_char b' ' tag) && leb (bytes_of tag) 48
      then elim (split_once b'[' tag) [
        | some (name, pid) ↦
            (some (of_chars name), some (of_chars (trim_brackets pid)), trim_start_chars msg)
        | none ↦ (if empty_chars tag then none else some (of_chars tag), none, trim_start_chars msg)
      ]
      else (none, none, line)
]

module _ {Time Num Tree : Type 0} (json : Json Time Num Tree) (formats : Formats Time Num Tree)
    (calendar : Calendar Time) where
  unfoldable pub parse_rfc5424 : List Char → Event Time Num Tree → Bool × Event Time Num Tree
  unfolding parse_pri split_header split_tail strip_bom insert
  parse_rfc5424 line ev = elim (parse_pri line) [
    | none ↦ (false, ev)
    | some (facility, severity, after) ↦
        elim (opt_then (strip_char b'1' after) (λ r. opt_then (strip_char b' ' r) split_header)) [
          | none ↦ (false, ev)
          | some h ↦
              let (sd, msg) = split_tail h.tail in
              let ts : Option Time =
                if is_nil h.ts then none else json.parse_from_rfc3339 (of_chars h.ts) in
              (
                true,
                record ev {
                  facility = some facility;
                  severity = some severity;
                  timestamp = elim ts [ none ↦ ev.timestamp | some t ↦ t ];
                  hostname = or_nil h.host ev.hostname;
                  application = or_nil h.app ev.application;
                  process_id = or_nil h.procid ev.process_id;
                  fields = elim sd [
                    | none ↦ ev.fields
                    | some s ↦ insert "structured_data" (string (of_chars s)) ev.fields
                  ];
                  message = of_chars (strip_bom msg);
                },
              )
        ]
  ]

  -- The timestamp of an RFC 3164 line, if it reads as one, and what follows.
  unfoldable pub take_timestamp : List Char → Option Time × List Char
  unfolding split_bytes trim_start_chars
  take_timestamp rest = elim (split_bytes 15 rest) [
    | none ↦ (none, rest)
    | some (ts, after) ↦ elim (calendar.parse_in_year calendar.year (of_chars ts)) [
      | none ↦ (none, rest)
      | some dt ↦
          let rolled : Time =
            if calendar.ahead dt
            then elim (calendar.parse_in_year (calendar.year - 1) (of_chars ts)) [
              | none ↦ dt
              | some prev ↦ prev
            ]
            else dt in
          (some rolled, trim_start_chars after)
    ]
  ]

  unfoldable pub parse_rfc3164 : List Char → Event Time Num Tree → Bool × Event Time Num Tree
  unfolding parse_pri take_timestamp take_host take_tag
  parse_rfc3164 line ev = elim (parse_pri line) [
    | none ↦ (false, ev)
    | some (facility, severity, rest) ↦
        let (ts, behind_ts) = take_timestamp rest in
        let (host, behind_host) = take_host behind_ts in
        let (app, pid, msg) = take_tag behind_host in
        (
          true,
          record ev {
            facility = some facility;
            severity = some severity;
            timestamp = elim ts [ none ↦ ev.timestamp | some t ↦ t ];
            hostname = elim host [ none ↦ ev.hostname | some h ↦ some h ];
            application = elim app [ none ↦ ev.application | some a ↦ some a ];
            process_id = elim pid [ none ↦ ev.process_id | some p ↦ some p ];
            message = of_chars msg;
          },
        )
  ]

  -- The last resorts of `Auto`.
  unfoldable pub parse_other : List Char → Event Time Num Tree → Event Time Num Tree
  unfolding trim_start_chars parse_json_into insert
  parse_other line ev = elim (strip_char b'{' (trim_start_chars line)) [
    | some _ ↦ parse_json_into json formats (of_chars line) ev
    | none ↦ record ev { fields = insert "parse_status" (string "unparsed") ev.fields }
  ]

  unfoldable pub parse_syslog_into :
      SyslogFormat → List Char → Event Time Num Tree → Event Time Num Tree
  unfolding parse_rfc5424 parse_rfc3164 parse_other parse_json_into
  parse_syslog_into raw line ev = ev
  parse_syslog_into json_lines line ev = parse_json_into json formats (of_chars line) ev
  parse_syslog_into rfc5424 line ev = (parse_rfc5424 line ev).1
  parse_syslog_into rfc3164 line ev = (parse_rfc3164 line ev).1
  parse_syslog_into auto line ev =
      let (done5424, first) = parse_rfc5424 line ev in
      elim done5424 [
        | true ↦ first
        | false ↦
            let (done3164, second) = parse_rfc3164 line first in
            elim done3164 [ true ↦ second | false ↦ parse_other line second ]
      ]
