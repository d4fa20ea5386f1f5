-- ===== src/LogBuffer/Tests.antt =====
-- src/logbuf.rs: a ring of two lines.
use softnix_log_agent.Prelude.{◌≤◌, [], ◌∷◌, length, arith}
use softnix_log_agent.LogBuffer.{LogEntry, capacity}
use softnix_log_agent.LogBuffer.Bounds.{pushes, pushes-le}

abbrev line : LogEntry
line = record { time = "now"; level = "WARN"; target = "buffer"; message = "full" }

pushes-le_example : length (pushes (line ∷ line ∷ []) (line ∷ [])) ≤ capacity
pushes-le_example = pushes-le (line ∷ line ∷ []) (line ∷ []) (omega arith)
