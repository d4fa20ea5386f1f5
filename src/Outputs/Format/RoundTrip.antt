-- ===== src/Outputs/Format/RoundTrip.antt =====
-- src/outputs/format.rs and src/pipeline/syslog.rs: what is read of a line that was written.
use softnix_log_agent.Prelude.{
  ℕ, ◌/◌, ◌%◌, ◌≤◌, ◌≡◌, refl, ap, ◌∙◌, min, true, false, Option, none, some, List, [], ◌∷◌, ◌++◌,
  arith, chars, of_chars, of_chars-chars, split_once-append, Without,
}
use Prim.Native.Char.{Char}
use Prim.Native.String.{String}
use softnix_log_agent.Event.{Json, string, Event, insert}
use softnix_log_agent.Pipeline.Parser.{Formats}
use softnix_log_agent.Pipeline.Syslog.{
  Calendar, Header, split_header, is_nil, or_nil, strip_bom, split_tail, trim_start_chars,
  parse_pri, parse_rfc5424,
}
use softnix_log_agent.Outputs.Format.{
  Stamps, unwrap_or, pri_of, rfc5424_structured_data, format_rfc5424,
}
use softnix_log_agent.Outputs.Format.Pri.{parse_pri-show_u8}
use softnix_log_agent.Outputs.Format.Syslog.{Bracketless, kept, split_tail-rfc5424_structured_data}

split_header-parts :
    (ts host app procid msgid tail : List Char)
    → Without b' ' ts
    → Without b' ' host
    → Without b' ' app
    → Without b' ' procid
    → Without b' ' msgid
    → split_header
        (ts ++ " " ∷ (host ++ " " ∷ (app ++ " " ∷ (procid ++ " " ∷ (msgid ++ " " ∷ tail)))))
      ≡ some (record { ts = ts; host = host; app = app; procid = procid; tail = tail })
unfolding split_header
split_header-parts ts host app procid msgid tail a b c d e =
    rw
      (
        split_once-append b' ' ts " "
            (host ++ " " ∷ (app ++ " " ∷ (procid ++ " " ∷ (msgid ++ " " ∷ tail)))) a refl,
        split_once-append b' ' host " " (app ++ " " ∷ (procid ++ " " ∷ (msgid ++ " " ∷ tail))) b
            refl,
        split_once-append b' ' app " " (procid ++ " " ∷ (msgid ++ " " ∷ tail)) c refl,
        split_once-append b' ' procid " " (msgid ++ " " ∷ tail) d refl,
        split_once-append b' ' msgid " " tail e refl,
      )
      refl

-- A header field: no space, and not the sign for none.
abbrev pub Token : String → Type 0
Token s = Without b' ' (chars s) × (is_nil (chars s) ≡ false)

abbrev pub OptToken : Option String → Type 0
OptToken none = Unit
OptToken (some s) = Token s

OptToken-Without : (o : Option String) → OptToken o → Without b' ' (chars (unwrap_or "-" o))
OptToken-Without none h = (refl, tt)
OptToken-Without (some s) (h, _) = h

abbrev pub read_back : Option String → Option String → Option String
read_back none old = old
read_back (some s) old = some s

or_nil-Token : (s : String) (old : Option String) → Token s → or_nil (chars s) old ≡ some s
or_nil-Token s old (_, n) = rw n (ap some (of_chars-chars s))

or_nil-read_back :
    (o old : Option String) → OptToken o → or_nil (chars (unwrap_or "-" o)) old ≡ read_back o old
or_nil-read_back none old h = refl
or_nil-read_back (some s) old h = or_nil-Token s old h

module _ {Time Num Tree : Type 0} (json : Json Time Num Tree) (formats : Formats Time Num Tree)
    (calendar : Calendar Time) (stamps : Stamps Time Num Tree) where
  -- The event that a reader makes of a written one and of the event that it starts with.
  abbrev pub reread : Event Time Num Tree → Time → Event Time Num Tree → Event Time Num Tree
  reread ev t old = record old {
    facility = some (unwrap_or 1 ev.facility);
    severity = some (min (unwrap_or 6 ev.severity) 7);
    timestamp = t;
    hostname = read_back ev.hostname old.hostname;
    application = some (unwrap_or "softnix-log-agent" ev.application);
    process_id = read_back ev.process_id old.process_id;
    fields = elim (kept json (rfc5424_structured_data json ev)) [
      | none ↦ old.fields
      | some s ↦ insert "structured_data" (string (of_chars s)) old.fields
    ];
    message = ev.message;
  }

  -- What the fields of an event must be like for a line to be read as it was meant.
  pub record Clean (ev : Event Time Num Tree) (t : Time) : Type 0 where
    pub stamp : Token (stamps.to_rfc3339_millis ev.timestamp)
    pub reads : json.parse_from_rfc3339 (stamps.to_rfc3339_millis ev.timestamp) ≡ some t
    pub facility : unwrap_or 1 ev.facility ≤ 23
    pub host : OptToken ev.hostname
    pub app : Token (unwrap_or "softnix-log-agent" ev.application)
    pub procid : OptToken ev.process_id
    pub fields : Bracketless json ev.fields
    pub untrimmed : trim_start_chars (chars ev.message) ≡ chars ev.message
    pub no_bom : strip_bom (chars ev.message) ≡ chars ev.message

  pri_of-parts :
      (ev : Event Time Num Tree)
      → unwrap_or 1 ev.facility ≤ 23
      → (pri_of json ev ≤ 191)
        × (pri_of json ev / 8 ≡ unwrap_or 1 ev.facility)
        × (pri_of json ev % 8 ≡ min (unwrap_or 6 ev.severity) 7)
  unfolding pri_of
  pri_of-parts ev h = (omega arith, omega arith, omega arith)

  parse_rfc5424-parts :
      (line rest msg : List Char) (f s : ℕ) (h : Header) (t : Time) (sd : Option (List Char))
      (old : Event Time Num Tree)
      → parse_pri line ≡ some (f, s, "1" ∷ " " ∷ rest)
      → split_header rest ≡ some h
      → split_tail h.tail ≡ (sd, msg)
      → is_nil h.ts ≡ false
      → json.parse_from_rfc3339 (of_chars h.ts) ≡ some t
      → parse_rfc5424 json formats calendar line old ≡ (
        true,
        record old {
          facility = some f;
          severity = some s;
          timestamp = t;
          hostname = or_nil h.host old.hostname;
          application = or_nil h.app old.application;
          process_id = or_nil h.procid old.process_id;
          fields = elim sd [
            | none ↦ old.fields
            | some x ↦ insert "structured_data" (string (of_chars x)) old.fields
          ];
          message = of_chars (strip_bom msg);
        },
      )
  unfolding parse_rfc5424
  parse_rfc5424-parts line rest msg f s h t sd old p e w n r =
      rw (parse_rfc5424, p, e, w, n, r) refl

  -- A written line is read back: the parser for RFC 5424 takes it and finds the facility, the
  -- severity, the time, the message and the header fields of the event, with the application's
  -- default where there is none, and it keeps the structured data as it was written. The time reads
  -- back as `t`; the facility is one of the 24 of the standard; no header field has a space or is
  -- "-"; no field has an opening bracket, and no field name a backslash; and the message begins with
  -- no whitespace and no byte order mark.
  pub parse_rfc5424-format_rfc5424 :
      (ev old : Event Time Num Tree) (t : Time)
      → Clean ev t
      → parse_rfc5424 json formats calendar (format_rfc5424 json stamps ev) old
        ≡ (true, reread ev t old)
  unfolding format_rfc5424
  parse_rfc5424-format_rfc5424 ev old t c =
      let (le, f, s) = pri_of-parts ev c.facility in
      let ts = chars (stamps.to_rfc3339_millis ev.timestamp) in
      let host = chars (unwrap_or "-" ev.hostname) in
      let app = chars (unwrap_or "softnix-log-agent" ev.application) in
      let procid = chars (unwrap_or "-" ev.process_id) in
      let tail = rfc5424_structured_data json ev ++ " " ∷ chars ev.message in
      let rest =
        ts ++ " " ∷ (host ++ " " ∷ (app ++ " " ∷ (procid ++ " " ∷ (("-" ∷ []) ++ " " ∷ tail)))) in
      parse_rfc5424-parts (format_rfc5424 json stamps ev) rest (chars ev.message)
        (pri_of json ev / 8) (pri_of json ev % 8)
        (record { ts = ts; host = host; app = app; procid = procid; tail = tail }) t
        (kept json (rfc5424_structured_data json ev)) old
        (parse_pri-show_u8 (pri_of json ev) ("1" ∷ " " ∷ rest) le)
        (split_header-parts ts host app procid ("-" ∷ []) tail (c.stamp).0
          (OptToken-Without ev.hostname c.host) (c.app).0 (OptToken-Without ev.process_id c.procid)
          (refl, tt))
        (split_tail-rfc5424_structured_data json ev (chars ev.message) c.fields c.untrimmed)
        (c.stamp).1
        (ap json.parse_from_rfc3339 (of_chars-chars (stamps.to_rfc3339_millis ev.timestamp))
          ∙ c.reads)
      ∙ ap (λ x. (true, x))
          (rw
            (
              f,
              s,
              or_nil-read_back ev.hostname old.hostname c.host,
              or_nil-Token (unwrap_or "softnix-log-agent" ev.application) old.application c.app,
              or_nil-read_back ev.process_id old.process_id c.procid,
              c.no_bom,
              of_chars-chars ev.message,
            )
            refl)
