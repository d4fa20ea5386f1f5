-- ===== src/Inputs/File/Tail/Laws.antt =====
-- src/inputs/file.rs: what a poll leaves in the state file, and what it has sent.
use softnix_log_agent.Prelude.{
  ℕ, ◌+◌, ◌≡◌, inl, inr, refl, ap, sym, ◌∙◌, subst, Bool, true, List, [], ◌∷◌, ◌++◌, append-nil,
  append_assoc, arith, Bool-cases, add64,
}
use Prim.Native.String.{String}
use softnix_log_agent.State.{StateManager, set_cursor}
use softnix_log_agent.Inputs.File.Tail.{
  TailReadResult, Emission, next_answer, emit_lines, emit_results,
}

module _ {V : Type 0} (parse : List ℕ → String → V) (id : String) (now : ℕ) where
  -- The events of some lines, and of some results.
  abbrev pub parsed : String → List (List ℕ) → List V
  parsed path [] = []
  parsed path (l ∷ ls) = parse l path ∷ parsed path ls

  abbrev pub events_of : List TailReadResult → List V
  events_of [] = []
  events_of (r ∷ rs) = parsed r.path_str r.lines ++ events_of rs

  -- The cursors of some results, set one after the other.
  unfoldable pub persisted : List TailReadResult → StateManager → StateManager
  persisted [] m = m
  persisted (r ∷ rs) m = persisted rs (set_cursor id r.identity r.path_str r.offset r.hash now m)

  record SentLines (path : String) (ls : List (List ℕ)) (goes_on : Bool) (e e' : Emission V)
      : Type 0 where
    part : List (List ℕ)
    more : List (List ℕ)
    split : ls ≡ part ++ more
    sent : e'.sent ≡ e.sent ++ parsed path part
    state : e'.state ≡ e.state
    all : goes_on ≡ true → more ≡ []

  emit_lines-SentLines :
      (path : String) (ls : List (List ℕ)) (answers : List Bool) (e : Emission V)
      → SentLines path ls
          (emit_lines parse id now path ls answers e).0
          e
          (emit_lines parse id now path ls answers e).2
  unfolding emit_lines
  emit_lines-SentLines path [] answers e = record {
    part = [];
    more = [];
    split = refl;
    sent = sym (append-nil e.sent);
    state = refl;
    all = λ _. refl;
  }
  emit_lines-SentLines path (l ∷ ls) answers e =
      elim (Bool-cases (next_answer parse id now answers).0) [
        | inr f ↦
            rw (emit_lines, f)
              (record {
                part = [];
                more = l ∷ ls;
                split = refl;
                sent = sym (append-nil e.sent);
                state = refl;
                all = λ p. ground (arith, p);
              })
        | inl t ↦
            let x = emit_lines-SentLines path ls (next_answer parse id now answers).1 (record e {
              emitted = e.emitted + 1;
              metrics = record e.metrics { events_received = add64 e.metrics.events_received 1 };
              sent = e.sent ++ parse l path ∷ [];
            }) in
            rw (emit_lines, t)
              (record {
                part = l ∷ x.part;
                more = x.more;
                split = ap (λ z. l ∷ z) x.split;
                sent = x.sent ∙ append_assoc e.sent (parse l path ∷ []) (parsed path x.part);
                state = x.state;
                all = x.all;
              })
      ]

  -- What is sent of the first of the results that are left.
  abbrev pub Part : List TailReadResult → List V → Type 0
  Part [] part = part ≡ []
  Part (r ∷ rs) part =
      (ls : List (List ℕ)) × (more : List (List ℕ)) × (r.lines ≡ ls ++ more)
      × (part ≡ parsed r.path_str ls)

  -- A poll of results: those that were sent as a whole have their cursors in the state, and no other.
  pub record Emitted (rs : List TailReadResult) (e e' : Emission V) : Type 0 where
    pub whole : List TailReadResult
    pub rest : List TailReadResult
    pub part : List V
    pub split : rs ≡ whole ++ rest
    pub begun : Part rest part
    pub sent : e'.sent ≡ e.sent ++ (events_of whole ++ part)
    pub state : e'.state ≡ persisted whole e.state

  Emitted-stop :
      (r : TailReadResult) (rs : List TailReadResult) (e : Emission V) → Emitted (r ∷ rs) e e
  unfolding persisted
  Emitted-stop r rs e = record {
    whole = [];
    rest = r ∷ rs;
    part = [];
    split = refl;
    begun = ([], r.lines, refl, refl);
    sent = sym (append-nil e.sent);
    state = refl;
  }

  Emitted-part :
      (r : TailReadResult) (rs : List TailReadResult) (g : Bool) (e e' : Emission V)
      → SentLines r.path_str r.lines g e e'
      → Emitted (r ∷ rs) e e'
  unfolding persisted
  Emitted-part r rs g e e' x = record {
    whole = [];
    rest = r ∷ rs;
    part = parsed r.path_str x.part;
    split = refl;
    begun = (x.part, x.more, x.split, refl);
    sent = x.sent;
    state = x.state;
  }

  Emitted-cons :
      (r : TailReadResult) (rs : List TailReadResult) (e mid e' : Emission V)
      → SentLines r.path_str r.lines true e mid
      → Emitted rs
          (record mid { state = set_cursor id r.identity r.path_str r.offset r.hash now mid.state })
          e'
      → Emitted (r ∷ rs) e e'
  unfolding persisted
  Emitted-cons r rs e mid e' x y =
      let l : r.lines ≡ x.part = x.split ∙ ap (λ z. x.part ++ z) (x.all refl) ∙ append-nil x.part in
      record {
        whole = r ∷ y.whole;
        rest = y.rest;
        part = y.part;
        split = ap (λ z. r ∷ z) y.split;
        begun = y.begun;
        sent =
            y.sent
            ∙ ap (λ z. z ++ (events_of y.whole ++ y.part)) x.sent
            ∙ append_assoc e.sent (parsed r.path_str x.part) (events_of y.whole ++ y.part)
            ∙ ap (λ z. e.sent ++ z)
                (sym (append_assoc (parsed r.path_str x.part) (events_of y.whole) y.part))
            ∙ ap (λ z. e.sent ++ ((parsed r.path_str z ++ events_of y.whole) ++ y.part)) (sym l);
        state =
            y.state
            ∙ ap
                (λ z. persisted y.whole (set_cursor id r.identity r.path_str r.offset r.hash now z))
                x.state;
      }

  -- Wherever a poll is cut off: it has sent the lines of some first results, in their order, and a
  -- part of those of the next, and the state has the cursors of those first results and no other. So
  -- no cursor is written for lines that were not sent.
  pub emit_results-Emitted :
      (rs : List TailReadResult) (answers : List Bool) (e : Emission V)
      → Emitted rs e (emit_results parse id now rs answers e).2
  unfolding emit_results persisted
  emit_results-Emitted [] answers e = record {
    whole = [];
    rest = [];
    part = [];
    split = refl;
    begun = refl;
    sent = sym (append-nil e.sent);
    state = refl;
  }
  emit_results-Emitted (r ∷ rs) answers e = elim (Bool-cases (next_answer parse id now answers).0) [
    | inr f ↦ rw (emit_results, f) (Emitted-stop r rs e)
    | inl t ↦
        let mid =
          (emit_lines parse id now r.path_str r.lines (next_answer parse id now answers).1 e).2 in
        let x = emit_lines-SentLines r.path_str r.lines (next_answer parse id now answers).1 e in
        elim (Bool-cases
          (emit_lines parse id now r.path_str r.lines (next_answer parse id now answers).1 e).0) [
            | inr f ↦ rw (emit_results, t, f) (Emitted-part r rs _ e _ x)
            | inl g ↦
                rw (emit_results, t, g)
                  (Emitted-cons r rs e mid _ (subst (λ b. SentLines r.path_str r.lines b e mid) g x)
                    (emit_results-Emitted rs _ _))
          ]
  ]
