-- ===== src/LogBuffer.antt =====
-- src/logbuf.rs: the ring of recent log lines, oldest first.
pub mod Bounds
mod Tests
use softnix_log_agent.Prelude.{
  ℕ, suc, Bool, true, false, ◌||◌, Option, none, some, List, [], ◌∷◌, ◌++◌, length, take, drop, leb,
  min, if◌then◌else◌,
}
use Prim.Native.String.{String}
use text.Mathlib.Text.{◌==◌ as str_eq}

abbrev pub capacity : ℕ
capacity = 500

pub record LogEntry : Type 0 where
  pub time : String
  pub level : String
  pub target : String
  pub message : String

-- `filter`: which entries a minimal level keeps
unfoldable pub keeps : Option String → LogEntry → Bool
keeps none e = true
keeps (some l) e =
    if str_eq l "error"
    then str_eq e.level "ERROR"
    else if str_eq l "warn"
    then str_eq e.level "ERROR" || str_eq e.level "WARN"
    else true

unfoldable pub newest_first : List LogEntry → List LogEntry
newest_first [] = []
newest_first (e ∷ es) = newest_first es ++ e ∷ []

unfoldable pub filtered : Option String → List LogEntry → List LogEntry
unfolding keeps
filtered min_level [] = []
filtered min_level (e ∷ es) =
    let rest = filtered min_level es in if keeps min_level e then e ∷ rest else rest

unfoldable pub recent : ℕ → Option String → List LogEntry → List LogEntry
unfolding newest_first filtered
recent limit min_level entries =
    take (min limit capacity) (filtered min_level (newest_first entries))

-- `LogBuffer::push`
unfoldable pub push_entry : LogEntry → List LogEntry → List LogEntry
push_entry entry entries =
    (if leb capacity (length entries) then drop 1 entries else entries) ++ entry ∷ []
