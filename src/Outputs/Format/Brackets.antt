-- ===== src/Outputs/Format/Brackets.antt =====
-- src/pipeline/syslog.rs: an opening bracket in a value of the structured data.
use softnix_log_agent.Prelude.{
  ℕ, ◌+◌, ◌≡◌, refl, ap, ◌∙◌, Bool, true, false, List, [], ◌∷◌, ◌++◌, some, Bool-cases, inl, inr,
  is_char, Without,
}
use Prim.Native.Char.{Char}
use softnix_log_agent.Pipeline.Syslog.{onto, split_sd, split_tail, trim_start_chars}
use softnix_log_agent.Outputs.Format.Syslog.{over, over-pair, Passes, split_tail-opens}

-- Without a closing bracket, the scan does not end before the text.
split_sd-unclosed :
    (escaped : Bool) (d : ℕ) (xs : List Char) → Without b']' xs → split_sd escaped d xs ≡ (xs, [])
unfolding split_sd
split_sd-unclosed escaped d [] h = refl
split_sd-unclosed true d (c ∷ xs) (e, h) = ap (onto c) (split_sd-unclosed false d xs h)
split_sd-unclosed false d (c ∷ xs) (e, h) = elim (Bool-cases (is_char b'[' c)) [
  | inl o ↦ rw (split_sd, o) (ap (onto c) (split_sd-unclosed false (d + 1) xs h))
  | inr o ↦ elim (Bool-cases (is_char b'\\' c)) [
    | inl b ↦ rw (split_sd, o, e, b) (ap (onto c) (split_sd-unclosed true d xs h))
    | inr b ↦ rw (split_sd, o, e, b) (ap (onto c) (split_sd-unclosed false d xs h))
  ]
]

-- The bracket of an element closes the one in its value, and no other follows.
split_sd-nested :
    (a b rest : List Char)
    → Passes a
    → Passes b
    → Without b']' rest
    → split_sd false 0 ("[" ∷ (a ++ "[" ∷ (b ++ "]" ∷ rest)))
      ≡ ("[" ∷ (a ++ "[" ∷ (b ++ "]" ∷ rest)), [])
unfolding split_sd
split_sd-nested a b rest p q h = ap (onto "[") (
    p 1 ("[" ∷ (b ++ "]" ∷ rest))
    ∙ ap (over a) (
        ap (onto "[") (
          q 2 ("]" ∷ rest)
          ∙ ap (over b) (ap (onto "]") (split_sd-unclosed false 1 rest h))
          ∙ over-pair b ("]" ∷ rest) []))
    ∙ over-pair a ("[" ∷ (b ++ "]" ∷ rest)) [])

-- An opening bracket in a value, which the standard lets stand unescaped, makes the reader take the
-- whole line for structured data: the message is empty, whatever it was, as long as it has no
-- closing bracket. `a` and `b` are what stands in the element around that bracket, with brackets
-- only behind backslashes.
pub split_tail-swallows :
    (a b message : List Char)
    → Passes a
    → Passes b
    → Without b']' message
    → split_tail ("[" ∷ (a ++ "[" ∷ (b ++ "]" ∷ " " ∷ message)))
      ≡ (some ("[" ∷ (a ++ "[" ∷ (b ++ "]" ∷ " " ∷ message))), [])
unfolding trim_start_chars
split_tail-swallows a b message p q h =
    split_tail-opens "[" (a ++ "[" ∷ (b ++ "]" ∷ " " ∷ message))
      ("[" ∷ (a ++ "[" ∷ (b ++ "]" ∷ " " ∷ message))) [] refl refl
      (split_sd-nested a b (" " ∷ message) p q (refl, h))
