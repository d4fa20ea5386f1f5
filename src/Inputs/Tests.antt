-- ===== src/Inputs/Tests.antt =====
-- src/inputs: runs on concrete files.
use softnix_log_agent.Prelude.{
  ℕ, ◌<◌, ◌≡◌, inl, ◌*◌, refl, true, false, none, some, List, [], ◌∷◌, ◌++◌, done, length, arith,
}
use Prim.Native.String.{String}
use softnix_log_agent.State.{StateManager, empty_state}
use softnix_log_agent.Inputs.File.{split_lines, read_new_lines}
use softnix_log_agent.Inputs.File.Lines.{read_new_lines-grows}
use softnix_log_agent.Inputs.File.Tail.{
  Tracked, TailReadResult, Stat, Emission, tail_path, emit_results,
}
use softnix_log_agent.Inputs.File.Tail.Laws.{Emitted, emit_results-Emitted}
use softnix_log_agent.Inputs.File.Tail.Poll.{tail_path-restarts}

-- A line, and the beginning of the next.
abbrev first_bytes : List ℕ
first_bytes = 97 ∷ 13 ∷ 10 ∷ 98 ∷ []

abbrev next_bytes : List ℕ
next_bytes = 99 ∷ 10 ∷ []

unfinished : length (split_lines [] first_bytes).1 < 1024 * 1024
unfolding split_lines
unfinished = omega arith

read_new_lines-grows_example :
    (l1 : List (List ℕ)) × (l2 : List (List ℕ)) × (o1 : ℕ) × (o2 : ℕ) × (read_new_lines
        (some ([] ++ first_bytes))
        0
        4
      ≡ done (l1, o1))
    × (read_new_lines (some ([] ++ (first_bytes ++ next_bytes))) o1 6 ≡ done (l2, o2))
    × (read_new_lines (some ([] ++ (first_bytes ++ next_bytes))) 0 6 ≡ done (l1 ++ l2, o2))
read_new_lines-grows_example =
    read_new_lines-grows [] first_bytes next_bytes (omega arith) unfinished

reads_once :
    read_new_lines (some (first_bytes ++ next_bytes)) 0 6
    ≡ done ((97 ∷ []) ∷ (98 ∷ 99 ∷ []) ∷ [], 6)
unfolding read_new_lines
reads_once = refl

abbrev manager : StateManager
manager = record { saved = none; state = empty_state; dirty = false; retention_secs = 3600 }

abbrev tracked : Tracked
tracked = record {
  identity = "dev1:ino2";
  offset = 100;
  last_size = 100;
  last_mtime = none;
  first_line_hash = some 3;
}

abbrev rewritten : Stat
rewritten = record {
  identity = "dev1:ino2";
  size = 6;
  mtime = none;
  file = some (first_bytes ++ next_bytes);
}

tail_path-restarts_example :
    (t' : Tracked) × (r : TailReadResult) × (tail_path length "in" manager "/var/log/a" rewritten
        tracked
      ≡ (t', some r))
    × (r.lines ≡ (97 ∷ []) ∷ (98 ∷ 99 ∷ []) ∷ [])
    × (r.offset ≡ 6)
    × (t'.offset ≡ 6)
tail_path-restarts_example =
    tail_path-restarts length "in" "/var/log/a" manager rewritten tracked
      ((97 ∷ []) ∷ (98 ∷ 99 ∷ []) ∷ []) 6 refl (inl (omega arith)) (omega arith) reads_once

abbrev result : TailReadResult
result = record {
  path_str = "/var/log/a";
  identity = "dev1:ino2";
  lines = (97 ∷ []) ∷ (98 ∷ 99 ∷ []) ∷ [];
  offset = 6;
  hash = some 3;
}

abbrev emission : Emission (List ℕ)
emission = record {
  sent = [];
  emitted = 0;
  metrics = record {
    events_received = 0;
    events_sent = 0;
    events_failed = 0;
    events_dropped = 0;
    errors = 0;
    last_error = false;
    channel_bytes = 0;
  };
  state = manager;
}

abbrev keep_line : List ℕ → String → List ℕ
keep_line line path = line

emit_results-Emitted_example :
    Emitted keep_line "in" 60
      (result ∷ result ∷ [])
      emission
      (emit_results keep_line "in" 60
        (result ∷ result ∷ [])
        (true ∷ true ∷ true ∷ true ∷ false ∷ [])
        emission).2
emit_results-Emitted_example =
    emit_results-Emitted keep_line "in" 60 (result ∷ result ∷ [])
      (true ∷ true ∷ true ∷ true ∷ false ∷ []) emission
