-- ===== src/Inputs/File/Lines.antt =====
-- src/inputs/file.rs: the lines of a file that grows.
use softnix_log_agent.Prelude.{
  ℕ, zero, suc, ◌+◌, ◌-◌, ◌≤◌, ◌<◌, ◌≡◌, refl, ap, ap₂, sym, ◌∙◌, min, false, some, List, [], ◌∷◌,
  ◌++◌, append-nil, append_assoc, done, length, length-append, drop-length-append, take, arith,
  ◌==◌, inl, inr, ◌⊎◌, Bool-cases,
}
use softnix_log_agent.Inputs.File.{
  newline, read_budget, max_line, pushed_line, split_lines, take_lines, read_new_lines,
}

-- Splitting goes on where it has stopped.
split_lines-append :
    (line a b : List ℕ)
    → split_lines line (a ++ b) ≡ (
      (split_lines line a).0 ++ (split_lines (split_lines line a).1 b).0,
      (split_lines (split_lines line a).1 b).1,
    )
unfolding split_lines
split_lines-append line [] b = refl
split_lines-append line (x ∷ a) b = elim (Bool-cases (x == newline)) [
  | inl e ↦
      rw (split_lines, e)
        (ap (λ (r : List (List ℕ) × List ℕ). (pushed_line line ++ r.0, r.1))
            (split_lines-append [] a b)
          ∙ ap (λ l. (l, (split_lines (split_lines [] a).1 b).1))
              (sym (
                append_assoc (pushed_line line) (split_lines [] a).0
                  (split_lines (split_lines [] a).1 b).0)))
  | inr e ↦ rw (split_lines, e) (split_lines-append (line ++ x ∷ []) a b)
]

abbrev NoNewline : List ℕ → Type 0
NoNewline [] = Unit
NoNewline (b ∷ bs) = ((b == newline) ≡ false) × NoNewline bs

NoNewline-snoc :
    (line : List ℕ) (b : ℕ) → NoNewline line → (b == newline) ≡ false → NoNewline (line ++ b ∷ [])
NoNewline-snoc [] b h e = (e, tt)
NoNewline-snoc (x ∷ line) b (f, h) e = (f, NoNewline-snoc line b h e)

split_lines-NoNewline : (line buf : List ℕ) → NoNewline line → NoNewline (split_lines line buf).1
unfolding split_lines
split_lines-NoNewline line [] h = h
split_lines-NoNewline line (b ∷ buf) h = elim (Bool-cases (b == newline)) [
  | inl e ↦ rw (split_lines, e) (split_lines-NoNewline [] buf tt)
  | inr e ↦
      rw (split_lines, e) (split_lines-NoNewline (line ++ b ∷ []) buf (NoNewline-snoc line b h e))
]

-- A rest without a newline is what the next line begins with.
split_lines-rest :
    (line rest b : List ℕ)
    → NoNewline rest
    → split_lines line (rest ++ b) ≡ split_lines (line ++ rest) b
unfolding split_lines
split_lines-rest line [] b h = rw (append-nil line) refl
split_lines-rest line (x ∷ rest) b (e, h) =
    rw (split_lines, e)
      (split_lines-rest (line ++ x ∷ []) rest b h
        ∙ ap (λ l. split_lines l b) (append_assoc line (x ∷ []) rest))

-- What is left is the end of what was read.
split_lines-suffix :
    (line buf : List ℕ) → (before : List ℕ) × (line ++ buf ≡ before ++ (split_lines line buf).1)
unfolding split_lines
split_lines-suffix line [] = ([], append-nil line)
split_lines-suffix line (b ∷ buf) = elim (Bool-cases (b == newline)) [
  | inl e ↦
      let (before, h) = split_lines-suffix [] buf in
      (
        line ++ b ∷ before,
        rw (split_lines, e)
            (ap (λ l. line ++ b ∷ l) h
              ∙ sym (append_assoc line (b ∷ before) (split_lines [] buf).1)),
      )
  | inr e ↦
      let (before, h) = split_lines-suffix (line ++ b ∷ []) buf in
      (before, rw (split_lines, e) (sym (append_assoc line (b ∷ []) buf) ∙ h))
]

take-all : (n : ℕ) (l : List ℕ) → length l ≤ n → take n l ≡ l
take-all zero [] h = refl
take-all zero (x ∷ l) h = absurd (omega arith)
take-all (suc n) [] h = refl
take-all (suc n) (x ∷ l) h = ap (λ z. x ∷ z) (take-all n l (omega arith))

-- A read of a whole file from a position, within the budget.
read_new_lines-rest :
    (pre buf : List ℕ)
    → length buf ≤ read_budget
    → read_new_lines (some (pre ++ buf)) (length pre) (length (pre ++ buf))
      ≡ done ((take_lines buf).0, length pre + (take_lines buf).1)
unfolding read_new_lines
read_new_lines-rest pre buf h =
    rw
      (
        drop-length-append pre buf,
        take-all (min (length (pre ++ buf) - length pre) read_budget) buf
            (omega (arith, length-append pre buf)),
      )
      refl

take_lines-short :
    (buf : List ℕ)
    → length (split_lines [] buf).1 < max_line
    → take_lines buf ≡ ((split_lines [] buf).0, length buf - length (split_lines [] buf).1)
unfolding take_lines
take_lines-short buf h = ground (arith, h)

take_lines-long :
    (buf rest : List ℕ) (lines : List (List ℕ))
    → split_lines [] buf ≡ (lines, rest)
    → (((length rest < max_line) × (take_lines buf ≡ (lines, length buf - length rest)))
        ⊎ ((max_line ≤ length rest) × (take_lines buf ≡ (lines ++ rest ∷ [], length buf))))
unfolding take_lines
take_lines-long buf rest lines e = ground (arith, e)

-- What was left unread of a buffer is read again at the head of the next.
take_lines-grows :
    (a b : List ℕ)
    → (take_lines (a ++ b)).0 ≡ (split_lines [] a).0 ++ (take_lines ((split_lines [] a).1 ++ b)).0
take_lines-grows a b =
    let (lines, rest) = split_lines [] a in
    let r = split_lines rest b in
    let e = split_lines-append [] a b in
    let f = split_lines-rest [] rest b (split_lines-NoNewline [] a tt) in
    elim (take_lines-long (a ++ b) r.1 (lines ++ r.0) e) [
      | inl (h, t) ↦ elim (take_lines-long (rest ++ b) r.1 r.0 f) [
        | inl (_, u) ↦ rw (t, u) refl
        | inr (k, _) ↦ absurd (omega arith)
      ]
      | inr (h, t) ↦ elim (take_lines-long (rest ++ b) r.1 r.0 f) [
        | inl (k, _) ↦ absurd (omega arith)
        | inr (_, u) ↦ rw (t, u) (append_assoc lines r.0 (r.1 ∷ []))
      ]
    ]

take_lines-offset :
    (a b : List ℕ)
    → (take_lines (a ++ b)).1 + length (split_lines [] a).1
      ≡ length a + (take_lines ((split_lines [] a).1 ++ b)).1
take_lines-offset a b =
    let (lines, rest) = split_lines [] a in
    let r = split_lines rest b in
    let e = split_lines-append [] a b in
    let f = split_lines-rest [] rest b (split_lines-NoNewline [] a tt) in
    let (before, s) = split_lines-suffix rest b in
    let (first, t) = split_lines-suffix [] a in
    let shorter : length rest ≤ length a = omega (arith, ap length t, length-append first rest) in
    elim (take_lines-long (a ++ b) r.1 (lines ++ r.0) e) [
      | inl (h, t) ↦ elim (take_lines-long (rest ++ b) r.1 r.0 f) [
        | inl (_, u) ↦ omega (
          arith,
          shorter,
          ap (λ x. x.1) t,
          ap (λ x. x.1) u,
          length-append a b,
          length-append rest b,
          ap length s,
          length-append before r.1,
        )
        | inr (k, _) ↦ absurd (omega arith)
      ]
      | inr (h, t) ↦ elim (take_lines-long (rest ++ b) r.1 r.0 f) [
        | inl (k, _) ↦ absurd (omega arith)
        | inr (_, u) ↦ omega (
          arith,
          shorter,
          ap (λ x. x.1) t,
          ap (λ x. x.1) u,
          length-append a b,
          length-append rest b,
        )
      ]
    ]

-- How a file is polled does not matter: where the unfinished line behind a first read is shorter
-- than the longest line, a second read, of a file that has grown meanwhile, gives the lines and the
-- position that one read of the grown file from the same start gives, if that is within the budget.
pub read_new_lines-grows :
    (pre a b : List ℕ)
    → length a + length b ≤ read_budget
    → length (split_lines [] a).1 < max_line
    → (l1 : List (List ℕ)) × (l2 : List (List ℕ)) × (o1 : ℕ) × (o2 : ℕ) × (read_new_lines
          (some (pre ++ a))
          (length pre)
          (length (pre ++ a))
        ≡ done (l1, o1))
      × (read_new_lines (some (pre ++ (a ++ b))) o1 (length (pre ++ (a ++ b))) ≡ done (l2, o2))
      × (read_new_lines (some (pre ++ (a ++ b))) (length pre) (length (pre ++ (a ++ b)))
          ≡ done (l1 ++ l2, o2))
read_new_lines-grows pre a b h short =
    let (before, s) = split_lines-suffix [] a in
    let (lines, rest) = split_lines [] a in
    let ls = ap length s ∙ length-append before rest in
    let again =
      ap (λ z. pre ++ (z ++ b)) s
      ∙ ap (λ z. pre ++ z) (append_assoc before rest b)
      ∙ sym (append_assoc pre before (rest ++ b)) in
    let o1 = length pre + (length a - length rest) in
    let eo : length (pre ++ before) ≡ o1 = omega (arith, ls, length-append pre before) in
    (
      lines,
      (take_lines (rest ++ b)).0,
      o1,
      length (pre ++ before) + (take_lines (rest ++ b)).1,
      read_new_lines-rest pre a (omega arith)
          ∙ ap (λ (r : List (List ℕ) × ℕ). done (r.0, length pre + r.1)) (take_lines-short a short),
      ap (λ f. read_new_lines (some f) o1 (length f)) again
          ∙ ap
              (λ o.
                read_new_lines (some ((pre ++ before) ++ (rest ++ b))) o
                  (length ((pre ++ before) ++ (rest ++ b))))
              (sym eo)
          ∙ read_new_lines-rest (pre ++ before) (rest ++ b)
              (omega (arith, ls, length-append rest b)),
      read_new_lines-rest pre (a ++ b) (omega (arith, length-append a b))
          ∙ ap₂ (λ l o. done (l, o)) (take_lines-grows a b)
              (omega (arith, ls, take_lines-offset a b, length-append pre before)),
    )
