-- ===== src/State/Cursors.antt =====
-- src/state.rs: what `get_cursor` reads behind `set_cursor`.
use softnix_log_agent.Prelude.{
  ℕ, ◌≡◌, ◌≢◌, ◌⊎◌, inl, inr, refl, ap, ◌∙◌, true, ◌&&◌, Option, none, some, arith, Option-cases,
  Bool-cases, ltb, ◌-◌, ◌==◌,
}
use Prim.Native.String.{String}
use softnix_log_agent.Event.{get, insert}
use softnix_log_agent.Event.Laws.{get-insert_self, get-insert}
use softnix_log_agent.State.{FileCursor, StateManager, key_of, same_hash, get_cursor, set_cursor}

same_hash-eq : (a b : Option ℕ) → same_hash a b ≡ true → a ≡ b
unfolding same_hash
same_hash-eq none none e = refl
same_hash-eq (some a) (some b) e = ground arith
same_hash-eq none (some b) e = ground arith
same_hash-eq (some a) none e = ground arith

-- What a cursor says of its file, beside the time.
abbrev pub Says : ℕ → Option ℕ → FileCursor → Type 0
Says offset hash c = (c.offset ≡ offset) × (c.first_line_hash ≡ hash)

module _ (i k p : String) (o : ℕ) (h : Option ℕ) (now : ℕ) (m : StateManager) where
  -- The cursors behind `set_cursor`: with one put, or as they were with one that says the same.
  Puts : FileCursor → Type 0
  Puts c =
      ((set_cursor i k p o h now m).state.files ≡ insert (key_of i k) c m.state.files)
      ⊎ ((get (key_of i k) m.state.files ≡ some c)
          × ((set_cursor i k p o h now m).state.files ≡ m.state.files))

  fresh : FileCursor
  fresh = record { path = p; offset = o; touched = now; first_line_hash = h }

  set_cursor-Puts_old :
      (old : FileCursor)
      → get (key_of i k) m.state.files ≡ some old
      → ((old.offset == o) && same_hash old.first_line_hash h) ≡ true
      → Says o h old
      → (c : FileCursor) × Says o h c × Puts c
  unfolding Puts set_cursor
  set_cursor-Puts_old old e same says = elim (Bool-cases (ltb (now - old.touched) 60)) [
    | inl soon ↦ (old, says, inr (e, ground arith))
    | inr late ↦ (record old { touched = now }, says, inl (ground arith))
  ]

  set_cursor-Puts : (c : FileCursor) × Says o h c × Puts c
  unfolding Puts set_cursor fresh
  set_cursor-Puts = elim (Option-cases (get (key_of i k) m.state.files)) [
    | inl n ↦ (fresh, (refl, refl), inl (ground arith))
    | inr (old, e) ↦ elim (Bool-cases ((old.offset == o) && same_hash old.first_line_hash h)) [
      | inl same ↦
          set_cursor-Puts_old old e same
            (ground arith, same_hash-eq old.first_line_hash h (ground arith))
      | inr other ↦ (fresh, (refl, refl), inl (ground arith))
    ]
  ]

  -- A position that was set is the one that is read, whether or not the call has changed the state.
  pub get_cursor-set_cursor :
      (c : FileCursor) × (get_cursor i k (set_cursor i k p o h now m) ≡ some c) × Says o h c
  unfolding get_cursor Puts
  get_cursor-set_cursor =
      let (c, says, w) = set_cursor-Puts in
      (
        c,
        elim w [
          | inl e ↦ ap (get (key_of i k)) e ∙ get-insert_self (key_of i k) c m.state.files
          | inr (g, e) ↦ ap (get (key_of i k)) e ∙ g
        ],
        says,
      )

  -- The cursors under every other key stay.
  pub get_cursor-set_cursor_other :
      (j l : String)
      → key_of i k ≢ key_of j l
      → get_cursor j l (set_cursor i k p o h now m) ≡ get_cursor j l m
  unfolding get_cursor Puts
  get_cursor-set_cursor_other j l ne =
      let (c, says, w) = set_cursor-Puts in
      elim w [
        | inl e ↦ ap (get (key_of j l)) e ∙ get-insert (key_of i k) (key_of j l) c m.state.files ne
        | inr (g, e) ↦ ap (get (key_of j l)) e
      ]
