-- ===== src/Outputs/Frame.antt =====
-- src/outputs/stdout.rs and src/outputs/syslog.rs: the bytes of a batch on a stream, and the
-- datagrams of a batch.
pub mod Laws
use softnix_log_agent.Prelude.{
  ℕ, zero, suc, ◌+◌, ◌/◌, ◌%◌, Bool, true, false, List, [], ◌∷◌, ◌++◌, length, ltb, if◌then◌else◌,
}
use Prim.Native.Char.{Char}
use softnix_log_agent.Event.{Json, Event}
use softnix_log_agent.Outputs.Format.{Stamps, OutputFormat, format_event}
use softnix_log_agent.Config.{Framing}

-- A `usize` in decimal, as bytes. The fuel is enough where it is larger than the number.
unfoldable pub show_usize : ℕ → ℕ → List ℕ
show_usize zero n = []
show_usize (suc fuel) n =
    let front = show_usize fuel (n / 10) in
    if ltb n 10 then (48 + n) ∷ [] else front ++ (48 + n % 10) ∷ []

unfoldable pub frame_line : Framing → List ℕ → List ℕ
unfolding show_usize
frame_line Framing.newline line = line ++ 10 ∷ []
frame_line Framing.octet_counting line = show_usize (suc (length line)) (length line) ++ 32 ∷ line

-- `as_bytes` of a text, the library of JSON and the clock are arguments.
module _ {Time Num Tree : Type 0} (as_bytes : List Char → List ℕ) (json : Json Time Num Tree)
    (stamps : Stamps Time Num Tree) where
  unfoldable pub line_of : OutputFormat → Event Time Num Tree → List ℕ
  unfolding format_event
  line_of format ev = as_bytes (format_event json stamps format ev)

  unfoldable pub frame_batch : List (Event Time Num Tree) → OutputFormat → Framing → List ℕ
  unfolding frame_line line_of
  frame_batch [] format framing = []
  frame_batch (ev ∷ events) format framing =
      frame_line framing (line_of format ev) ++ frame_batch events format framing

  -- The datagrams of a batch over UDP: an event that is too large is passed over.
  unfoldable pub datagrams : OutputFormat → List (Event Time Num Tree) → List (List ℕ)
  unfolding line_of
  datagrams format [] = []
  datagrams format (ev ∷ events) =
      let rest = datagrams format events in
      if ltb 65507 (length (line_of format ev)) then rest else line_of format ev ∷ rest
