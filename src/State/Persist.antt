-- ===== src/State/Persist.antt =====
-- src/state.rs: nothing is lost without the dirty flag.
use softnix_log_agent.Prelude.{
  ℕ, ◌-◌, ◌≤◌, ◌≡◌, ◌⊎◌, refl, Bool, true, false, Option, some, List, [], ◌∷◌, done, length, arith,
}
use Prim.Native.String.{String}
use softnix_log_agent.State.{
  FileCursor, StateManager, set_cursor, set_checkpoint, mark_known_input, retain, prune, flush,
}

-- The calls that may change the state, with the clock and the outcome of the write.
pub data Call : Type 0 where
  sets_cursor : String → String → String → ℕ → Option ℕ → ℕ → Call
  sets_checkpoint : String → String → String → Call
  marks_input : String → Call
  prunes : ℕ → ℕ → Call
  flushes : Bool → ℕ → Call

unfoldable pub call : Call → StateManager → StateManager
call (Call.sets_cursor i k p o h now) m = set_cursor i k p o h now m
call (Call.sets_checkpoint i k v) m = set_checkpoint i k v m
call (Call.marks_input i) m = mark_known_input i m
call (Call.prunes age now) m = prune age now m
call (Call.flushes written now) m = (flush written now m).1

unfoldable pub calls : List Call → StateManager → StateManager
unfolding call
calls [] m = m
calls (c ∷ cs) m = calls cs (call c m)

-- A state that is not marked as dirty is the one on the disk.
abbrev pub Persisted : StateManager → Type 0
Persisted m = (m.dirty ≡ true) ⊎ (m.saved ≡ some m.state)

length-retain :
    (cutoff : ℕ) (files : List (String × FileCursor)) → length (retain cutoff files) ≤ length files
unfolding retain
length-retain cutoff [] = omega arith
length-retain cutoff ((k, c) ∷ m) = ground (arith, length-retain cutoff m)

-- Where nothing is dropped, the cursors are as they were.
retain-all :
    (cutoff : ℕ) (files : List (String × FileCursor))
    → length (retain cutoff files) ≡ length files
    → retain cutoff files ≡ files
unfolding retain
retain-all cutoff [] e = refl
retain-all cutoff ((k, c) ∷ m) e = ground (arith, length-retain cutoff m, retain-all cutoff m)

set_cursor-Persisted :
    (i k p : String) (o : ℕ) (h : Option ℕ) (now : ℕ) (m : StateManager)
    → Persisted m
    → Persisted (set_cursor i k p o h now m)
unfolding set_cursor
set_cursor-Persisted i k p o h now m s = ground arith

set_checkpoint-Persisted :
    (i k v : String) (m : StateManager) → Persisted m → Persisted (set_checkpoint i k v m)
unfolding set_checkpoint
set_checkpoint-Persisted i k v m s = ground arith

mark_known_input-Persisted :
    (i : String) (m : StateManager) → Persisted m → Persisted (mark_known_input i m)
unfolding mark_known_input
mark_known_input-Persisted i m s = ground arith

prune-Persisted : (age now : ℕ) (m : StateManager) → Persisted m → Persisted (prune age now m)
unfolding prune
prune-Persisted age now m s = ground (arith, retain-all (now - age) m.state.files)

flush-Persisted :
    (written : Bool) (now : ℕ) (m : StateManager) → Persisted m → Persisted (flush written now m).1
unfolding flush
flush-Persisted written now m s = ground arith

call-Persisted : (c : Call) (m : StateManager) → Persisted m → Persisted (call c m)
unfolding call
call-Persisted (Call.sets_cursor i k p o h now) m s = set_cursor-Persisted i k p o h now m s
call-Persisted (Call.sets_checkpoint i k v) m s = set_checkpoint-Persisted i k v m s
call-Persisted (Call.marks_input i) m s = mark_known_input-Persisted i m s
call-Persisted (Call.prunes age now) m s = prune-Persisted age now m s
call-Persisted (Call.flushes written now) m s = flush-Persisted written now m s

-- Behind any sequence of calls, failed writes included, a state that is not on the disk is marked
-- as dirty, if it was so at the start.
pub calls-Persisted : (cs : List Call) (m : StateManager) → Persisted m → Persisted (calls cs m)
unfolding calls
calls-Persisted [] m s = s
calls-Persisted (c ∷ cs) m s = calls-Persisted cs (call c m) (call-Persisted c m s)

-- A flush that is told to write, and succeeds, leaves the state on the disk.
pub flush-saved :
    (now : ℕ) (m m' : StateManager) (written : Bool)
    → Persisted m
    → flush written now m ≡ (done tt, m')
    → (m'.saved ≡ some m'.state) × (m'.dirty ≡ false)
unfolding flush
flush-saved now m m' written s h = ground arith
