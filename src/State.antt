-- ===== src/State.antt =====
-- src/state.rs: the file cursors and checkpoints, and when they are written. Times are seconds since
-- 1970, and the clock of a call is an argument.
pub mod Persist
pub mod Cursors
mod Tests
use softnix_log_agent.Prelude.{
  ℕ, ◌+◌, ◌*◌, ◌-◌, Bool, true, false, ◌&&◌, not, Option, none, some, List, [], ◌∷◌, Io, done, fail,
  length, leb, ltb, ◌==◌, if◌then◌else◌,
}
use Prim.Native.String.{String, ◌++◌}
use text.Mathlib.Text.{◌==◌ as str_eq}
use softnix_log_agent.Event.{get, insert}

pub record FileCursor : Type 0 where
  pub path : String
  pub offset : ℕ
  pub touched : ℕ
  pub first_line_hash : Option ℕ

-- The two maps and the set are association lists and a list.
pub record StateFile : Type 0 where
  pub files : List (String × FileCursor)
  pub known_inputs : List String
  pub checkpoints : List (String × String)

-- `saved` is what `state.json` holds, `none` if it is missing or unreadable.
pub record StateManager : Type 0 where
  pub saved : Option StateFile
  pub state : StateFile
  pub dirty : Bool
  pub retention_secs : ℕ

abbrev pub empty_state : StateFile
empty_state = record { files = []; known_inputs = []; checkpoints = [] }

-- `StateManager::open`, in a directory that can be created
unfoldable pub open_state : Option StateFile → StateManager
open_state saved = record {
  saved = saved;
  state = elim saved [ none ↦ empty_state | some s ↦ s ];
  dirty = false;
  retention_secs = 24 * 3600;
}

-- `format!("{input_id}|{identity}")`
unfoldable pub key_of : String → String → String
key_of input_id identity = input_id ++ ("|" ++ identity)

unfoldable pub get_cursor : String → String → StateManager → Option FileCursor
unfolding get key_of
get_cursor input_id identity m = get (key_of input_id identity) m.state.files

unfoldable pub same_hash : Option ℕ → Option ℕ → Bool
same_hash none none = true
same_hash (some a) (some b) = a == b
same_hash _ _ = false

abbrev put_file : String → FileCursor → StateManager → StateManager
put_file key c m = record m {
  state = record m.state { files = insert key c m.state.files };
  dirty = true;
}

unfoldable pub set_cursor :
    String → String → String → ℕ → Option ℕ → ℕ → StateManager → StateManager
unfolding get insert key_of same_hash
set_cursor input_id identity path offset first_line_hash now m =
    let key = key_of input_id identity in
    let fresh : FileCursor = record {
      path = path;
      offset = offset;
      touched = now;
      first_line_hash = first_line_hash;
    } in
    elim (get key m.state.files) [
      | none ↦ put_file key fresh m
      | some existing ↦
          if (existing.offset == offset) && same_hash existing.first_line_hash first_line_hash
          then (if ltb (now - existing.touched) 60
              then m
              else put_file key (record existing { touched = now }) m)
          else put_file key fresh m
    ]

unfoldable pub get_checkpoint : String → String → StateManager → Option String
unfolding get key_of
get_checkpoint input_id key m = get (key_of input_id key) m.state.checkpoints

unfoldable pub set_checkpoint : String → String → String → StateManager → StateManager
unfolding get insert key_of
set_checkpoint input_id key value m =
    let k = key_of input_id key in
    let put = record m {
      state = record m.state { checkpoints = insert k value m.state.checkpoints };
      dirty = true;
    } in
    elim (get k m.state.checkpoints) [ none ↦ put | some old ↦ if str_eq old value then m else put ]

unfoldable pub contains : String → List String → Bool
contains s [] = false
contains s (t ∷ ts) = let rest = contains s ts in if str_eq t s then true else rest

unfoldable pub is_known_input : String → StateManager → Bool
unfolding contains
is_known_input input_id m = contains input_id m.state.known_inputs

unfoldable pub mark_known_input : String → StateManager → StateManager
unfolding contains
mark_known_input input_id m = if contains input_id m.state.known_inputs then m else record m {
  state = record m.state { known_inputs = input_id ∷ m.state.known_inputs };
  dirty = true;
}

-- `retain(|_, c| c.touched >= cutoff)`
unfoldable pub retain : ℕ → List (String × FileCursor) → List (String × FileCursor)
retain cutoff [] = []
retain cutoff ((k, c) ∷ m) =
    let rest = retain cutoff m in if leb cutoff c.touched then (k, c) ∷ rest else rest

unfoldable pub prune : ℕ → ℕ → StateManager → StateManager
unfolding retain
prune max_age_secs now m =
    let files = retain (now - max_age_secs) m.state.files in
    let pruned = record m { state = record m.state { files = files } } in
    if length files == length m.state.files then pruned else record pruned { dirty = true }

-- `flush`; `written` says whether `write_atomic` succeeds.
unfoldable pub flush : Bool → ℕ → StateManager → Io (Unit {0}) × StateManager
unfolding retain
flush written now m =
    if not m.dirty
    then (done tt, m)
    else let state = record m.state { files = retain (now - m.retention_secs) m.state.files } in
      if written
      then (done tt, record m { saved = some state; state = state; dirty = false })
      else (fail, record m { state = state; dirty = true })
