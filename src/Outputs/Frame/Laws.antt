-- ===== src/Outputs/Frame/Laws.antt =====
-- src/outputs/stdout.rs: what a receiver of a stream reads back.
use softnix_log_agent.Prelude.{
  ℕ, zero, suc, ◌+◌, ◌*◌, ◌-◌, ◌/◌, ◌%◌, ◌≤◌, ◌<◌, ◌≡◌, refl, ap, ◌∙◌, true, false, ◌&&◌, not,
  Option, none, some, List, [], ◌∷◌, ◌++◌, map, append_assoc, length, take, drop,
  take-length-append, drop-length-append, length-append, ltb, ◌==◌, if◌then◌else◌, arith, ge→ltb,
  ◌≢◌, Bool-cases, inl, inr,
}
use Prim.Native.Char.{Char}
use softnix_log_agent.Event.{Json, Event}
use softnix_log_agent.Outputs.Format.{Stamps, OutputFormat}
use softnix_log_agent.Outputs.Frame.{show_usize, frame_line, line_of, frame_batch}
use softnix_log_agent.Config.{Framing}

-- The number up to the next space, and what is behind the space.
unfoldable pub read_count : List ℕ → ℕ → Option (ℕ × List ℕ)
read_count [] n = none
read_count (c ∷ cs) n =
    let rest = read_count cs (n * 10 + (c - 48)) in
    if c == 32 then some (n, cs) else if not (ltb c 48) && ltb c 58 then rest else none

-- A receiver that counts octets, as RFC 6587 describes it: a number, a space, and as many bytes.
unfoldable pub unframe : ℕ → List ℕ → Option (List (List ℕ))
unfolding read_count
unframe fuel [] = some []
unframe zero (c ∷ cs) = none
unframe (suc fuel) (c ∷ cs) = elim (read_count (c ∷ cs) 0) [
  | none ↦ none
  | some (n, rest) ↦ elim (ltb (length rest) n) [
    | true ↦ none
    | false ↦ elim (unframe fuel (drop n rest)) [
      | none ↦ none
      | some lines ↦ some (take n rest ∷ lines)
    ]
  ]
]

read_count-digit :
    (d n : ℕ) (cs : List ℕ) → d < 10 → read_count ((48 + d) ∷ cs) n ≡ read_count cs (n * 10 + d)
unfolding read_count
read_count-digit d n cs h = let e : 48 + d - 48 ≡ d = omega arith in rw e (ground arith)

read_count-show_usize :
    (fuel n : ℕ) (cs : List ℕ) → n < fuel → read_count (show_usize fuel n ++ cs) 0 ≡ read_count cs n
unfolding show_usize
read_count-show_usize zero n cs h = absurd (omega (arith, h))
read_count-show_usize (suc fuel) n cs h = elim (Bool-cases (ltb n 10)) [
  | inl a ↦
      let z : 0 * 10 + n ≡ n = omega arith in
      rw (show_usize, a) (read_count-digit n 0 cs (ground (arith, a)) ∙ ap (read_count cs) z)
  | inr a ↦
      let q : n / 10 * 10 + n % 10 ≡ n = omega arith in
      rw (show_usize, a, append_assoc (show_usize fuel (n / 10)) ((48 + n % 10) ∷ []) cs)
        (read_count-show_usize fuel (n / 10) ((48 + n % 10) ∷ cs) (ground (arith, a))
          ∙ read_count-digit (n % 10) (n / 10) cs (omega arith)
          ∙ ap (read_count cs) q)
]

none≢some : {A : Type 0} (a : A) → none ≢ some a
none≢some a e = ground (arith, e)

unframe-cons :
    (fuel : ℕ) (cs : List ℕ) (n : ℕ) (rest : List ℕ) (lines : List (List ℕ))
    → read_count cs 0 ≡ some (n, rest)
    → n ≤ length rest
    → unframe fuel (drop n rest) ≡ some lines
    → unframe (suc fuel) cs ≡ some (take n rest ∷ lines)
unfolding unframe read_count
unframe-cons fuel [] n rest lines r h u = absurd (none≢some (n, rest) r)
unframe-cons fuel (c ∷ cs) n rest lines r h u =
    let q : ltb (length rest) n ≡ false = ge→ltb (length rest) n h in rw (unframe, r, q, u) refl

-- The frame of one line, in front of frames that read back.
unframe-frame_line :
    (fuel : ℕ) (line more : List ℕ) (lines : List (List ℕ))
    → unframe fuel more ≡ some lines
    → unframe (suc fuel) (frame_line Framing.octet_counting line ++ more) ≡ some (line ∷ lines)
unfolding frame_line read_count
unframe-frame_line fuel line more lines u =
    let n = length line in
    let a = append_assoc (show_usize (suc n) n) (32 ∷ line) more in
    let r = read_count-show_usize (suc n) n (32 ∷ (line ++ more)) (omega arith) in
    let t = take-length-append line more in
    let d = drop-length-append line more in
    let h : n ≤ length (line ++ more) = omega (arith, length-append line more) in
    ap (unframe (suc fuel)) a
    ∙ unframe-cons fuel _ n (line ++ more) lines r h (ap (unframe fuel) d ∙ u)
    ∙ ap (λ l. some (l ∷ lines)) t

module _ {Time Num Tree : Type 0} (as_bytes : List Char → List ℕ) (json : Json Time Num Tree)
    (stamps : Stamps Time Num Tree) where
  -- A receiver that counts octets reads from the payload of a batch the lines of its events, in
  -- order and whatever bytes they have, on a round for each event.
  pub unframe-frame_batch :
      (fuel : ℕ) (events : List (Event Time Num Tree)) (format : OutputFormat)
      → length events ≤ fuel
      → unframe fuel (frame_batch as_bytes json stamps events format Framing.octet_counting)
        ≡ some (map (line_of as_bytes json stamps format) events)
  unfolding frame_batch unframe
  unframe-frame_batch fuel [] format h = refl
  unframe-frame_batch zero (ev ∷ events) format h = absurd (omega (arith, h))
  unframe-frame_batch (suc fuel) (ev ∷ events) format h =
      unframe-frame_line fuel (line_of as_bytes json stamps format ev)
        (frame_batch as_bytes json stamps events format Framing.octet_counting) _
        (unframe-frame_batch fuel events format (omega (arith, h)))
