-- ===== src/State/Tests.antt =====
-- src/state.rs: runs of the state manager.
use softnix_log_agent.Prelude.{◌≡◌, ◌≢◌, inl, refl, true, false, none, some, [], ◌∷◌, done, arith}
use text.Mathlib.TextEquality.{eq_iff}
use softnix_log_agent.State.{
  FileCursor, StateFile, StateManager, key_of, get_cursor, set_cursor, flush,
}
use softnix_log_agent.State.Persist.{Call, calls, Persisted, calls-Persisted, flush-saved}
use softnix_log_agent.State.Cursors.{Says, get_cursor-set_cursor, get_cursor-set_cursor_other}

abbrev one_file : StateFile
one_file = record {
  files =
      ("in|a", record { path = "/a"; offset = 5; touched = 100; first_line_hash = some 1 }) ∷ [];
  known_inputs = [];
  checkpoints = [];
}

abbrev manager : StateManager
manager = record { saved = some one_file; state = one_file; dirty = true; retention_secs = 1000 }

manager-Persisted : Persisted manager
manager-Persisted = inl refl

calls-Persisted_example : Persisted (
    calls
      (Call.sets_cursor "in" "a" "/a" 9 (some 1) 200
        ∷ Call.flushes false 210
        ∷ Call.flushes true 220
        ∷ [])
      manager)
calls-Persisted_example =
    calls-Persisted
      (Call.sets_cursor "in" "a" "/a" 9 (some 1) 200
        ∷ Call.flushes false 210
        ∷ Call.flushes true 220
        ∷ [])
      manager manager-Persisted

flushes_now : flush true 200 manager ≡ (done tt, (flush true 200 manager).1)
unfolding flush
flushes_now = refl

flush-saved_example :
    ((flush true 200 manager).1.saved ≡ some (flush true 200 manager).1.state)
    × ((flush true 200 manager).1.dirty ≡ false)
flush-saved_example =
    flush-saved 200 manager (flush true 200 manager).1 true manager-Persisted flushes_now

get_cursor-set_cursor_example :
    (c : FileCursor) × (get_cursor "in" "a" (set_cursor "in" "a" "/a" 9 (some 1) 200 manager)
      ≡ some c)
    × Says 9 (some 1) c
get_cursor-set_cursor_example = get_cursor-set_cursor "in" "a" "/a" 9 (some 1) 200 manager

keys_apart : key_of "in" "b" ≢ key_of "in" "a"
unfolding key_of
keys_apart e = ground (arith, eq_iff "in|b" "in|a", e)

get_cursor-set_cursor_other_example :
    get_cursor "in" "a" (set_cursor "in" "b" "/b" 9 none 200 manager) ≡ get_cursor "in" "a" manager
get_cursor-set_cursor_other_example =
    get_cursor-set_cursor_other "in" "b" "/b" 9 none 200 manager "in" "a" keys_apart
