-- ===== src/Outputs/Tests.antt =====
-- src/outputs: runs of a worker on a queue of two events, and of the wire formats.
use softnix_log_agent.Prelude.{
  ℕ, ◌<◌, ◌≡◌, refl, subst, true, false, Option, none, some, List, [], ◌∷◌, ◌++◌, chars, Without,
  map, Io, done, length, arith,
}
use Prim.Native.Char.{Char, code}
use softnix_log_agent.Event.{Event, string}
use softnix_log_agent.Pipeline.Sample.{json, event}
use softnix_log_agent.Pipeline.Parser.{Formats}
use softnix_log_agent.Pipeline.Syslog.{
  Calendar, has_char, parse_rfc5424, trim_start_chars, strip_bom, split_tail,
}
use softnix_log_agent.Outputs.Format.{
  OutputFormat, Stamps, unwrap_or, format_rfc5424, value_to_param, bad_name,
}
use softnix_log_agent.Outputs.Format.Syslog.{Passes, Passes-name}
use softnix_log_agent.Outputs.Format.RoundTrip.{Clean, reread, parse_rfc5424-format_rfc5424}
use softnix_log_agent.Outputs.Format.Brackets.{split_tail-swallows}
use softnix_log_agent.Outputs.Frame.{line_of, frame_batch}
use softnix_log_agent.Outputs.Frame.Laws.{unframe, unframe-frame_batch}
use softnix_log_agent.Config.{Framing}
use softnix_log_agent.Buffer.Queue.{block}
use softnix_log_agent.Buffer.Fifo.Spec.{decode_all, view}
use softnix_log_agent.Buffer.Sample.{
  byte_codec, byte-IsPayload, two_segments, both, queue, two-Rep, two-Behind,
}
use softnix_log_agent.Outputs.Worker.{Worker, round, finish, read_batch, answer_batch, whole_batch}
use softnix_log_agent.Outputs.Worker.Round.{
  worker_of, confirmed_of, confirmed, Synced, Left, round-Left,
}
use softnix_log_agent.Outputs.Worker.Flow.{
  System, push_into, Reach, here, next, pushes, reads, answers, Flow, Reach-Flow,
}
use softnix_log_agent.Outputs.Worker.Gate.{AtEnd, confirms_all}
use softnix_log_agent.Buffer.Record.{
  encode_record, to_le_bytes, read_record, read_header, read_payload,
}
use softnix_log_agent.Buffer.Reader.{peek_batch, over_budget, take_record}
use softnix_log_agent.Buffer.Record.Recovery.{encode_all}
use softnix_log_agent.Outputs.Worker.Drain.{rounds, rounds-nil, finish-Left}

abbrev worker : Worker
worker = record {
  id = "out";
  queue = queue block 100;
  retry = record { initial_backoff_ms = 500; max_backoff_ms = 60000; batch_size = 1 };
  backoff = 500;
  status = record { inputs = []; outputs = [] };
  metrics = record {
    events_received = 0;
    events_sent = 0;
    events_failed = 0;
    events_dropped = 0;
    errors = 0;
    last_error = false;
    channel_bytes = 0;
  };
}

worker-Synced : Synced byte_codec worker.queue both
worker-Synced = record {
  held = two_segments;
  unread = both;
  rep = two-Rep;
  cursor = two-Behind;
  peek = two-Behind;
  same = refl;
}

round-Left_example :
    Left byte_codec
      (confirmed byte_codec (confirms_all byte_codec) worker)
      both
      (worker_of (round byte_codec (confirms_all byte_codec) false worker)).queue
round-Left_example = round-Left byte_codec (confirms_all byte_codec) false worker both worker-Synced

held_two : decode_all byte_codec both ≡ 7 ∷ 8 ∷ []
unfolding decode_all
held_two = refl

worker-AtEnd : AtEnd worker.queue
unfolding view encode_all encode_record to_le_bytes
worker-AtEnd = (encode_all byte_codec ((8 ∷ []) ∷ []), refl, refl)

rounds-nil_example :
    (left : List (List ℕ)) × Synced byte_codec
      (rounds byte_codec 2 (confirms_all byte_codec) worker).queue
      left
    × (decode_all byte_codec left ≡ [])
rounds-nil_example =
    rounds-nil byte_codec 2 worker both (omega arith) worker-Synced worker-AtEnd
      (rw held_two (omega arith)) (rw held_two (omega arith))

abbrev partial_sink : List ℕ → Option (Io ℕ)
partial_sink batch = some (done 0)

finish-Left_example :
    (out : List ℕ) × (0 < length out)
    × Left byte_codec out both (finish byte_codec partial_sink worker).queue
finish-Left_example =
    finish-Left byte_codec partial_sink 0 worker both (omega arith) worker-Synced
      (rw held_two (omega arith)) (λ out. refl)

abbrev before : System ℕ
before = record { worker = worker; batch = []; accepted = 7 ∷ 8 ∷ []; sent = [] }

before-Flow : Flow byte_codec before
unfolding decode_all
before-Flow = record {
  rest = both;
  pending = record {
    held = two_segments;
    unread = both;
    rep = two-Rep;
    cursor = two-Behind;
    peek = two-Behind;
    same = refl;
  };
  history = refl;
}

-- A batch is read, an event is pushed, and the sink confirms the batch.
abbrev reading : System ℕ
reading = record before {
  worker = (read_batch byte_codec worker).1;
  batch = (read_batch byte_codec worker).0;
}

abbrev pushed : System ℕ
pushed = record reading {
  worker = push_into byte_codec 1 9 reading.worker;
  accepted = 7 ∷ 8 ∷ 9 ∷ [];
}

abbrev after : System ℕ
after = record pushed {
  worker =
      worker_of
        (answer_batch byte_codec (confirms_all byte_codec) false pushed.batch pushed.worker);
  batch = [];
  sent =
      confirmed_of pushed.batch
        (whole_batch (length pushed.batch) (confirms_all byte_codec pushed.batch));
}

room_reading :
    (reading.worker.queue.inner.bytes ≡ 18)
    × (reading.worker.queue.inner.write_seg ≡ 1)
    × (reading.worker.queue.max_bytes ≡ 100)
unfolding read_batch peek_batch read_record read_header encode_all encode_record to_le_bytes
    read_payload over_budget take_record
room_reading = (refl, refl, refl)

pushed_meanwhile : Reach byte_codec before after
pushed_meanwhile =
    let (b, s, m) = room_reading in
    next
      (next (next here (reads before refl)) (
        pushes reading 0 9 (9 ∷ []) refl (byte-IsPayload 9) (ground (arith, b, m))
          (omega (arith, s))))
      (answers pushed (confirms_all byte_codec) false)

reads_back :
    (ev : ℕ) (p : List ℕ) → byte_codec.to_vec ev ≡ some p → byte_codec.from_slice p ≡ some ev
reads_back ev p e = ground (arith, e)

Reach-Flow_example : Flow byte_codec after
Reach-Flow_example = Reach-Flow byte_codec reads_back before-Flow pushed_meanwhile

-- An event whose field is written as structured data.
abbrev written : Event ℕ ℕ ℕ
written = record event {
  hostname = some "web1";
  severity = some 4;
  facility = some 16;
  fields = ("user", string "a]b") ∷ [];
}

abbrev stamps : Stamps ℕ ℕ ℕ
stamps = record {
  to_rfc3339_millis = json.to_rfc3339;
  to_bsd = json.to_rfc3339;
  event_to_json = λ ev. none;
}

abbrev formats : Formats ℕ ℕ ℕ
formats = record {
  parse_from_str = λ s f. none;
  parse_naive = λ s f. none;
  object_from_str = λ s. none;
}

abbrev calendar : Calendar ℕ
calendar = record { year = 2026; parse_in_year = λ y s. none; ahead = λ t. false }

Without-has_char : (n : ℕ) (cs : List Char) → has_char n cs ≡ false → Without n cs
unfolding has_char
Without-has_char n [] h = tt
Without-has_char n (c ∷ cs) h = (ground (arith, h), Without-has_char n cs (ground (arith, h)))

written-Clean : Clean json formats calendar stamps written 0
unfolding value_to_param trim_start_chars strip_bom has_char
written-Clean = record {
  stamp = (Without-has_char 32 (chars "2026-01-01T00:00:00Z") refl, refl);
  reads = refl;
  facility = omega arith;
  host = (Without-has_char 32 (chars "web1") refl, refl);
  app = (Without-has_char 32 (chars "softnix-log-agent") refl, refl);
  procid = tt;
  fields = (
    Without-has_char b'[' (chars "user") refl,
    Without-has_char b'\\' (chars "user") refl,
    (λ s e.
        subst (λ o. Without b'[' (chars (unwrap_or "" o))) e
          (Without-has_char b'[' (chars "a]b") refl)),
    tt,
  );
  untrimmed = refl;
  no_bom = refl;
}

parse_rfc5424-format_rfc5424_example :
    parse_rfc5424 json formats calendar (format_rfc5424 json stamps written) event
    ≡ (true, reread json formats calendar stamps written 0 event)
parse_rfc5424-format_rfc5424_example =
    parse_rfc5424-format_rfc5424 json formats calendar stamps written event 0 written-Clean

-- The beginning of an element up to its value, and what is behind the bracket in the value.
abbrev before_bracket : List Char
before_bracket = "x" ∷ []

name_x : bad_name before_bracket ≡ false
unfolding bad_name
name_x = refl

Passes-before_bracket : Passes before_bracket
Passes-before_bracket = Passes-name before_bracket name_x (refl, tt) (refl, tt)

split_tail-swallows_example :
    split_tail ("[" ∷ (before_bracket ++ "[" ∷ (before_bracket ++ "]" ∷ " " ∷ before_bracket)))
    ≡ (some ("[" ∷ (before_bracket ++ "[" ∷ (before_bracket ++ "]" ∷ " " ∷ before_bracket))), [])
split_tail-swallows_example =
    split_tail-swallows before_bracket before_bracket before_bracket Passes-before_bracket
      Passes-before_bracket (refl, tt)

unframe-frame_batch_example :
    unframe 3 (
      frame_batch
        (map code)
        json
        stamps
        (written ∷ event ∷ [])
        OutputFormat.rfc5424
        Framing.octet_counting)
    ≡ some (map (line_of (map code) json stamps OutputFormat.rfc5424) (written ∷ event ∷ []))
unframe-frame_batch_example =
    unframe-frame_batch (map code) json stamps 3 (written ∷ event ∷ []) OutputFormat.rfc5424
      (omega arith)
