-- ===== src/Inputs/File/Tail/Poll.antt =====
-- src/inputs/file.rs: what a poll of one file leaves.
use softnix_log_agent.Prelude.{
  ℕ, ◌≤◌, ◌<◌, ◌≡◌, ◌⊎◌, inl, inr, refl, ap, ◌∙◌, false, some, List, done, ◌==◌, arith, ne→==,
}
use Prim.Native.String.{String}
use text.Mathlib.TextEquality.{eq_iff}
use softnix_log_agent.State.{StateManager, same_hash}
use softnix_log_agent.Inputs.File.{read_new_lines}
use softnix_log_agent.Inputs.File.Tail.{
  Tracked, TailReadResult, Stat, rotate, restart, check_head, head_fingerprint, tail_path,
}

check_head-le :
    (hash : List ℕ → ℕ) (s : Stat) (t : Tracked)
    → ((check_head hash s t).offset ≤ t.offset) × ((check_head hash s t).identity ≡ t.identity)
unfolding check_head
check_head-le hash s t = (ground arith, ground arith)

-- What a poll compares and reads, behind the changes of its entry.
abbrev checked : (List ℕ → ℕ) → String → StateManager → Stat → Tracked → Tracked
checked hash id m s t = check_head hash s (restart s (rotate id m s t))

rotate-same :
    (id : String) (m : StateManager) (s : Stat) (t : Tracked)
    → t.identity ≡ s.identity
    → rotate id m s t ≡ t
unfolding rotate
rotate-same id m s t e = ground (arith, eq_iff t.identity s.identity)

-- The signs that a file of the same identity was written anew: it is shorter than what was read of
-- it, or it has changed since the last poll and its first line is another.
abbrev pub Rewritten : (List ℕ → ℕ) → Stat → Tracked → Type 0
Rewritten hash s t =
    (s.size < t.offset)
    ⊎ (((s.size ≡ t.last_size → ⊥) ⊎ (same_hash s.mtime t.last_mtime ≡ false))
        × ((prev : ℕ) × (curr : ℕ) × (t.first_line_hash ≡ some prev)
            × (head_fingerprint hash s.file ≡ some curr)
            × (prev ≡ curr → ⊥)))

restart-short : (s : Stat) (t : Tracked) → s.size < t.offset → restart s t ≡ record t { offset = 0 }
unfolding restart
restart-short s t h = ground arith

check_head-zero :
    (hash : List ℕ → ℕ) (s : Stat) (t : Tracked) → t.offset ≡ 0 → (check_head hash s t).offset ≡ 0
check_head-zero hash s t e = let (le, _) = check_head-le hash s t in omega arith

check_head-moved :
    (hash : List ℕ → ℕ) (s : Stat) (t : Tracked) (prev curr : ℕ)
    → ((s.size ≡ t.last_size → ⊥) ⊎ (same_hash s.mtime t.last_mtime ≡ false))
    → t.first_line_hash ≡ some prev
    → head_fingerprint hash s.file ≡ some curr
    → (prev ≡ curr → ⊥)
    → (check_head hash s t).offset ≡ 0
unfolding check_head same_hash
check_head-moved hash s t prev curr d p c n = ground arith

restart-else : (s : Stat) (t : Tracked) → ((restart s t).offset ≡ 0) ⊎ (restart s t ≡ t)
unfolding restart
restart-else s t = ground arith

checked-zero :
    (hash : List ℕ → ℕ) (id : String) (m : StateManager) (s : Stat) (t : Tracked)
    → t.identity ≡ s.identity
    → Rewritten hash s t
    → (checked hash id m s t).offset ≡ 0
checked-zero hash id m s t e (inl short) =
    rw (rotate-same id m s t e, restart-short s t short)
      (check_head-zero hash s (record t { offset = 0 }) refl)
checked-zero hash id m s t e (inr (d, (prev, curr, p, c, n))) =
    rw (rotate-same id m s t e) (elim (restart-else s t) [
      | inl z ↦ check_head-zero hash s (restart s t) z
      | inr r ↦ rw r (check_head-moved hash s t prev curr d p c n)
    ])

tail_path-read :
    (hash : List ℕ → ℕ) (id path : String) (m : StateManager) (s : Stat) (t : Tracked)
    (lines : List (List ℕ)) (o : ℕ)
    → ((s.size == (checked hash id m s t).offset) ≡ false)
    → read_new_lines s.file (checked hash id m s t).offset s.size ≡ done (lines, o)
    → tail_path hash id m path s t ≡ (
      record (checked hash id m s t) { last_size = s.size; last_mtime = s.mtime; offset = o },
      some (record {
        path_str = path;
        identity = (checked hash id m s t).identity;
        lines = lines;
        offset = o;
        hash = (checked hash id m s t).first_line_hash;
      }),
    )
unfolding tail_path
tail_path-read hash id path m s t lines o ne r = rw (tail_path, ne, r) refl

-- A file that was written anew is read from its start: a poll that sees, under the identity that it
-- knows, a file that is not empty and whose lines can be read from its first byte on, and that is
-- shorter than its position, or whose size or time of change is not that of the last poll and whose
-- first line has a hash other than the one recorded, gives those lines.
pub tail_path-restarts :
    (hash : List ℕ → ℕ) (id path : String) (m : StateManager) (s : Stat) (t : Tracked)
    (lines : List (List ℕ)) (o : ℕ)
    → t.identity ≡ s.identity
    → Rewritten hash s t
    → 0 < s.size
    → read_new_lines s.file 0 s.size ≡ done (lines, o)
    → (t' : Tracked) × (r : TailReadResult) × (tail_path hash id m path s t ≡ (t', some r))
      × (r.lines ≡ lines)
      × (r.offset ≡ o)
      × (t'.offset ≡ o)
tail_path-restarts hash id path m s t lines o e w nz r =
    let z = checked-zero hash id m s t e w in
    (
      _,
      _,
      tail_path-read hash id path m s t lines o
          (ne→== s.size (checked hash id m s t).offset (λ q. omega arith))
          (ap (λ k. read_new_lines s.file k s.size) z ∙ r),
      refl,
      refl,
      refl,
    )
