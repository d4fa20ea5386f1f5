-- ===== src/Inputs/File.antt =====
-- src/inputs/file.rs: tailing, on Unix. A file is its bytes; what the operating system answers about a
-- path is an argument of a poll.
pub mod Lines
pub mod Tail
use softnix_log_agent.Prelude.{
  ℕ, ◌+◌, ◌-◌, ◌*◌, min, Bool, true, false, not, ◌&&◌, ◌||◌, Option, none, some, List, [], ◌∷◌,
  ◌++◌, Io, done, fail, length, take, drop, ltb, leb, ◌==◌, if◌then◌else◌,
}
use Prim.Native.String.{String}
use softnix_log_agent.State.{FileCursor, StateManager, get_cursor}

abbrev pub read_budget : ℕ
read_budget = 4 * 1024 * 1024

abbrev pub max_line : ℕ
max_line = 1024 * 1024

abbrev pub newline : ℕ
newline = 10

abbrev pub carriage_return : ℕ
carriage_return = 13

-- `if end > start && buf[end - 1] == b'\r' { end -= 1 }`
unfoldable pub strip_cr : List ℕ → List ℕ
strip_cr [] = []
strip_cr (b ∷ []) = if b == carriage_return then [] else b ∷ []
strip_cr (b ∷ c ∷ bs) = b ∷ strip_cr (c ∷ bs)

-- `if end > start { lines.push(..) }`
unfoldable pub pushed_line : List ℕ → List (List ℕ)
unfolding strip_cr
pushed_line line = elim (strip_cr line) [ [] ↦ [] | b ∷ bs ↦ (b ∷ bs) ∷ [] ]

-- The loop over the buffer: `line` is what stands between `start` and the next byte. The lines, and
-- what is behind the last newline.
unfoldable pub split_lines : List ℕ → List ℕ → List (List ℕ) × List ℕ
unfolding pushed_line
split_lines line [] = ([], line)
split_lines line (b ∷ bs) = elim (b == newline) [
  | true ↦ let (lines, rest) = split_lines [] bs in (pushed_line line ++ lines, rest)
  | false ↦ split_lines (line ++ b ∷ []) bs
]

-- The lines of a buffer and the number of consumed bytes; a rest that is too long is forced out.
unfoldable pub take_lines : List ℕ → List (List ℕ) × ℕ
unfolding split_lines
take_lines buf =
    let (lines, rest) = split_lines [] buf in
    if leb max_line (length rest)
    then (lines ++ rest ∷ [], length buf)
    else (lines, length buf - length rest)

-- `read_new_lines`, before `from_utf8_lossy`; the file is `none` if it cannot be opened or read.
unfoldable pub read_new_lines : Option (List ℕ) → ℕ → ℕ → Io (List (List ℕ) × ℕ)
unfolding take_lines
read_new_lines none offset size = fail
read_new_lines (some file) offset size =
    let (lines, consumed) =
      take_lines (take (min (size - offset) read_budget) (drop offset file)) in
    done (lines, offset + consumed)
