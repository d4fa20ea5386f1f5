-- ===== src/LogBuffer/Bounds.antt =====
-- src/logbuf.rs: the ring is bounded.
use softnix_log_agent.Prelude.{
  ◌≤◌, ◌<◌, ◌≡◌, true, false, List, [], ◌∷◌, length, drop, leb, arith, length-append, length-drop,
  Bool-cases, inl, inr,
}
use softnix_log_agent.LogBuffer.{LogEntry, capacity, push_entry}

unfoldable pub pushes : List LogEntry → List LogEntry → List LogEntry
pushes [] b = b
pushes (e ∷ es) b = pushes es (push_entry e b)

push_entry-le :
    (e : LogEntry) (b : List LogEntry) → length b ≤ capacity → length (push_entry e b) ≤ capacity
unfolding push_entry
push_entry-le e b h = elim (Bool-cases (leb capacity (length b))) [
  | inl full ↦
      rw full (omega (arith, length-append (drop 1 b) (e ∷ []), length-drop 1 b, h, full_le full))
  | inr room ↦ rw room (omega (arith, length-append b (e ∷ []), room_lt room))
]
  where
    full_le : leb capacity (length b) ≡ true → capacity ≤ length b
    full_le q = ground arith

    room_lt : leb capacity (length b) ≡ false → length b < capacity
    room_lt q = ground arith

-- Whatever is pushed into a ring within its capacity, it stays within it.
pub pushes-le : (es b : List LogEntry) → length b ≤ capacity → length (pushes es b) ≤ capacity
unfolding pushes
pushes-le [] b h = h
pushes-le (e ∷ es) b h = pushes-le es (push_entry e b) (push_entry-le e b h)
