-- ===== src/Inputs/File/Tail.antt =====
-- src/inputs/file.rs: discovery, the poll of the tracked files, and the emission of their lines. A
-- cancellation in front of a path cuts the list of paths short.
pub mod Laws
pub mod Poll
use softnix_log_agent.Prelude.{
  ℕ, ◌+◌, ◌-◌, Bool, true, false, not, ◌&&◌, ◌||◌, Option, none, some, List, [], ◌∷◌, ◌++◌, Io,
  done, fail, length, take, drop, ltb, leb, ◌==◌, if◌then◌else◌, add64,
}
use Prim.Native.String.{String}
use text.Mathlib.Text.{◌==◌ as str_eq}
use softnix_log_agent.Event.{get, insert}
use softnix_log_agent.Metrics.{Metrics}
use softnix_log_agent.State.{FileCursor, StateManager, get_cursor, set_cursor, same_hash}
use softnix_log_agent.Inputs.File.{newline, read_new_lines}

abbrev pub fingerprint_bytes : ℕ
fingerprint_bytes = 512

unfoldable pub through_newline : List ℕ → List ℕ
through_newline [] = []
through_newline (b ∷ bs) = elim (b == newline) [ true ↦ b ∷ [] | false ↦ b ∷ through_newline bs ]

-- `head_fingerprint`, of a file that reads without an error.
unfoldable pub head_fingerprint : (List ℕ → ℕ) → Option (List ℕ) → Option ℕ
unfolding through_newline
head_fingerprint hash none = none
head_fingerprint hash (some file) = some (hash (through_newline (take fingerprint_bytes file)))

pub record Tracked : Type 0 where
  pub identity : String
  pub offset : ℕ
  pub last_size : ℕ
  pub last_mtime : Option ℕ
  pub first_line_hash : Option ℕ

pub record TailReadResult : Type 0 where
  pub path_str : String
  pub identity : String
  pub lines : List (List ℕ)
  pub offset : ℕ
  pub hash : Option ℕ

-- What a poll sees of a path: the metadata of a regular file, and then what is in it.
pub record Stat : Type 0 where
  pub identity : String
  pub size : ℕ
  pub mtime : Option ℕ
  pub file : Option (List ℕ)

abbrev pub cursor_offset : Option FileCursor → ℕ
cursor_offset none = 0
cursor_offset (some c) = c.offset

abbrev pub cursor_hash : Option FileCursor → Option ℕ
cursor_hash none = none
cursor_hash (some c) = c.first_line_hash

-- An entry that `discover_once` makes, and the one for a file that replaced another.
abbrev pub track : String → ℕ → Option FileCursor → Tracked
track identity offset cursor = record {
  identity = identity;
  offset = offset;
  last_size = 0;
  last_mtime = none;
  first_line_hash = cursor_hash cursor;
}

-- The body of the loop of `discover_once`, on a path that is not tracked.
unfoldable pub discover_path : String → Bool → Bool → StateManager → Stat → Tracked
unfolding get_cursor
discover_path id skip_existing read_from_start state s =
    let cursor = get_cursor id s.identity state in
    elim cursor [
      | some c ↦ track s.identity c.offset (some c)
      | none ↦ track s.identity (if skip_existing && not read_from_start then s.size else 0) none
    ]

-- `if t.identity != identity { .. }`
unfoldable pub rotate : String → StateManager → Stat → Tracked → Tracked
unfolding get_cursor
rotate id state s t =
    if str_eq t.identity s.identity
    then t
    else let cursor = get_cursor id s.identity state in
      track s.identity (cursor_offset cursor) cursor

-- `if size < t.offset { t.offset = 0; }`
unfoldable pub restart : Stat → Tracked → Tracked
restart s t = if ltb s.size t.offset then record t { offset = 0 } else t

-- The comparison with the fingerprint of the first line, where it is due.
unfoldable pub check_head : (List ℕ → ℕ) → Stat → Tracked → Tracked
unfolding head_fingerprint same_hash
check_head hash s t =
    let due =
      not (s.size == t.last_size)
      || not (same_hash s.mtime t.last_mtime)
      || same_hash t.first_line_hash none in
    if due
    then elim (head_fingerprint hash s.file) [
      | none ↦ t
      | some curr ↦
          let moved =
            ltb 0 t.offset
            && not (same_hash t.first_line_hash none)
            && not (same_hash t.first_line_hash (some curr)) in
          record t { offset = if moved then 0 else t.offset; first_line_hash = some curr }
    ]
    else t

-- The body of the loop of `tail_paths_blocking`, on a tracked path whose metadata are those of a
-- file.
unfoldable pub tail_path :
    (List ℕ → ℕ) → String → StateManager → String → Stat → Tracked → Tracked × Option TailReadResult
unfolding rotate restart check_head read_new_lines
tail_path hash id state path s t0 =
    let t : Tracked = record (check_head hash s (restart s (rotate id state s t0))) {
      last_size = s.size;
      last_mtime = s.mtime;
    } in
    let result : List (List ℕ) → ℕ → TailReadResult = λ lines offset. record {
      path_str = path;
      identity = t.identity;
      lines = lines;
      offset = offset;
      hash = t.first_line_hash;
    } in
    if s.size == t.offset
    then (t, some (result [] t.offset))
    else elim (read_new_lines s.file t.offset s.size) [
      | fail ↦ (t, none)
      | done (lines, offset) ↦ (record t { offset = offset }, some (result lines offset))
    ]

-- `tail_paths_blocking`; a path without metadata of a file is passed over.
unfoldable pub tail_paths_blocking :
    (List ℕ → ℕ)
    → String
    → StateManager
    → List (String × Option Stat)
    → List (String × Tracked)
    → List (String × Tracked) × List TailReadResult
unfolding tail_path get insert
tail_paths_blocking hash id state [] tracked = (tracked, [])
tail_paths_blocking hash id state ((path, none) ∷ ps) tracked =
    tail_paths_blocking hash id state ps tracked
tail_paths_blocking hash id state ((path, some s) ∷ ps) tracked = elim (get path tracked) [
  | none ↦ tail_paths_blocking hash id state ps tracked
  | some t ↦
      let (t', r) = tail_path hash id state path s t in
      let (after, rs) = tail_paths_blocking hash id state ps (insert path t' tracked) in
      (after, elim r [ none ↦ rs | some x ↦ x ∷ rs ])
]

-- The events that went into the channel in a poll, with what else it changes.
pub record Emission (V : Type 0) : Type 0 where
  pub sent : List V
  pub emitted : ℕ
  pub metrics : Metrics
  pub state : StateManager

module _ {V : Type 0} (parse : List ℕ → String → V) (id : String) (now : ℕ) where
  -- Each test for a cancellation and each send takes the next answer, `true` if the poll goes on
  -- (and for ever, once the list is empty).
  abbrev pub next_answer : List Bool → Bool × List Bool
  next_answer [] = (true, [])
  next_answer (b ∷ bs) = (b, bs)

  unfoldable pub emit_lines :
      String → List (List ℕ) → List Bool → Emission V → Bool × List Bool × Emission V
  emit_lines path [] answers e = (true, answers, e)
  emit_lines path (l ∷ ls) answers e =
      let counted = record e {
        emitted = e.emitted + 1;
        metrics = record e.metrics { events_received = add64 e.metrics.events_received 1 };
      } in
      elim (next_answer answers).0 [
        | false ↦ (false, (next_answer answers).1, counted)
        | true ↦
            emit_lines path ls (next_answer answers).1
              (record counted { sent = e.sent ++ parse l path ∷ [] })
      ]

  -- The loop over the results of a batch in `tail_once`.
  unfoldable pub emit_results :
      List TailReadResult → List Bool → Emission V → Bool × List Bool × Emission V
  unfolding emit_lines set_cursor
  emit_results [] answers e = (true, answers, e)
  emit_results (r ∷ rs) answers e = elim (next_answer answers).0 [
    | false ↦ (false, (next_answer answers).1, e)
    | true ↦
        let (goes_on, left, after) = emit_lines r.path_str r.lines (next_answer answers).1 e in
        elim goes_on [
          | false ↦ (false, left, after)
          | true ↦ emit_results rs left (record after {
            state = set_cursor id r.identity r.path_str r.offset r.hash now after.state;
          })
        ]
  ]
